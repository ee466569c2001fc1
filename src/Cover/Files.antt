-- ===== src/Cover/Files.antt =====
-- The functions of worker/cover/main.go that make, download and upload files. The errors that are
-- returned are those of the source: an `err` that an `if` declares anew is nil where only the size
-- is 0, and so is the outer one.
use bmw.Base.{
  Option, String, [], aborts, fails, if◌then◌else◌, nat_eq, none, ok, pure, some, string_eq, ◌++◌,
  ◌==◌, ◌>>=◌, ◌>>◌, ◌∷◌,
}
use bmw.Cover.Types.{
  Outside, Run, call, deferred, exec, failed, is_made, made, make_temp, open_file, remove_file,
  size_of, uploaded,
}

module _ (o : Outside) where
  -- `videoToImage`. An empty file is no error.
  unfoldable pub video_to_image : String → Run o String
  unfolding make_temp exec size_of
  video_to_image in_file = do
    out ← make_temp o "png"
    exec o (
        "ffmpeg" ∷ "-y" ∷ "-ss" ∷ "0.1" ∷ "-t" ∷ "0.001" ∷ "-i" ∷ in_file ∷ "-f" ∷ "image2"
        ∷ "-metadata:s:v" ∷ "rotate=0" ∷ "-vframes" ∷ "1" ∷ "-vf" ∷ "scale=-1:400" ∷ out ∷ [])
    size ← size_of o out
    pure out

  -- `imageBlur`. An empty file is no error.
  unfoldable pub image_blur : String → Run o String
  unfolding make_temp exec size_of
  image_blur in_file = do
    out ← make_temp o "blur"
    exec o ("convert" ∷ "-blur" ∷ "45x7" ∷ in_file ∷ out ∷ [])
    size ← size_of o out
    pure out

  -- The last part of `videoToWebp`. A file that is not there, or empty, is removed at the end.
  unfoldable pub gif_to_webp : String → Run o String
  unfolding make_temp exec size_of is_made deferred
  gif_to_webp gif = do
    out ← make_temp o "webp"
    exec o ("gif2webp" ∷ "-lossy" ∷ gif ∷ "-o" ∷ out ∷ [])
    good ← is_made o out
    let ending = size_of o out >>= λ size. pure out
    if good then ending else deferred o out ending

  -- The part before, from the palette on. An empty gif file is no error, and has no name.
  unfoldable pub palette_to_webp : String → String → Run o String
  unfolding make_temp exec size_of deferred gif_to_webp
  palette_to_webp in_file palette = do
    gif ← make_temp o "gif"
    deferred o gif (do
      exec o (
          "ffmpeg" ∷ "-y" ∷ "-ss" ∷ "0" ∷ "-t" ∷ "2" ∷ "-v" ∷ "error" ∷ "-i" ∷ in_file ∷ "-i"
          ∷ palette ∷ "-metadata:s:v" ∷ "rotate=0" ∷ "-filter_complex"
          ∷ "fps=8,scale=-1:400:flags=lanczos[x];[x][1:v]paletteuse" ∷ "-f" ∷ "gif" ∷ gif ∷ [])
      size ← size_of o gif
      if size == 0 then pure "" else gif_to_webp gif)

  -- `videoToWebp`. A palette that is not there, or empty, is no error, and the file has no name.
  unfoldable pub video_to_webp : String → Run o String
  unfolding make_temp exec is_made deferred palette_to_webp
  video_to_webp in_file = do
    palette ← make_temp o "png"
    deferred o palette (do
      exec o (
          "ffmpeg" ∷ "-y" ∷ "-ss" ∷ "0" ∷ "-t" ∷ "2" ∷ "-i" ∷ in_file ∷ "-f" ∷ "image2"
          ∷ "-metadata:s:v" ∷ "rotate=0" ∷ "-vf" ∷ "fps=7,scale=-1:400:flags=lanczos,palettegen"
          ∷ palette ∷ [])
      good ← is_made o palette
      if good then palette_to_webp in_file palette else pure "")

  -- `downloadFile`, which asks a nil file for its name where `TempFile` fails.
  unfoldable pub named_file : o.World × Option String → Run o String
  named_file (w, none) s = (record s { world = w }, aborts)
  named_file (w, some name) s = (record s { world = w; trace = s.trace ++ made name ∷ [] }, ok name)

  unfoldable pub fetch_into : String → String → String → String → Run o String
  fetch_into out key bucket region s =
      let (w, done) = o.download out key bucket region s.world in
      (record s { world = w }, if done then ok out else fails failed)

  unfoldable pub download_file : String → String → String → Run o String
  unfolding named_file fetch_into
  download_file key bucket region = do
    out ← λ s. named_file (o.temp_file "tmp" s.world) s
    fetch_into out key bucket region

  -- `uploadFile`, which removes the file that it has uploaded.
  unfoldable pub upload_file : String → String → String → String → Run o (Unit {0})
  unfolding open_file call remove_file
  upload_file file key bucket region = do
    open_file o file
    call o (o.upload file key bucket region) (uploaded key)
    remove_file o file
