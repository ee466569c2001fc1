-- ===== src/Image/Types.antt =====
-- The data of worker/image/image.go. `Float` is the type float64.
use bmw.Base.{String, nat_eq, string_eq, ℤ}

pub data Op (Float : Type 0) : Type 0 where
  read_file_op : String → Op Float
  resize_op : ℤ → ℤ → Op Float
  blur_op : Float → Op Float
