-- ===== src/Resource/Generate.antt =====
-- The functions that make files, worker/resource/generate.go. Each answers a file name and an
-- error, as in Go.
use bmw.Base.{Option, String, if◌then◌else◌, nat_eq, none, some, split, string_eq, ◌<>◌, ◌==◌}
use bmw.Resource.Types.{
  Cloud, CreateFile, Error, blur_image, create_err, download, thumbnail_image, video_to_cover,
  video_to_webp,
}

module _ (c : Cloud) where
  open c use {World, temp_file, run, file_size, remove, fetch}

  -- A result of `(string, error)`.
  abbrev pub Made : Type 0
  Made = World × (String × Option Error)

  -- `runCommond`, at the spaces of the command line.
  unfoldable pub run_command : String → World → World × Option Error
  run_command cmd w =
      let (w', done) = run (split b' ' cmd) w in (w', if done then none else some create_err)

  -- The test of the file that a command should have made. The `err` that is returned is that of
  -- `os.Stat`, which is nil for an empty file.
  unfoldable pub check_made : String → World → String × Option Error
  check_made out_file w = elim (file_size out_file w) [
    | none ↦ ("", some create_err)
    | some size ↦ if size == 0 then ("", none) else (out_file, none)
  ]

  run_in : String → (String → String → String) → String → World → Made
  unfolding run_command check_made
  run_in in_file f out_file w =
      let (w', err) = run_command (f in_file out_file) w in
      elim err [ some e ↦ (w', ("", some e)) | none ↦ (w', check_made out_file w') ]

  unfoldable pub run_one_cmd : String → String → (String → String → String) → World → Made
  unfolding run_in
  run_one_cmd in_file prefix f w =
      let (w', tmp) = temp_file prefix w in
      elim tmp [ none ↦ (w', ("", some create_err)) | some out_file ↦ run_in in_file f out_file w' ]

  -- `if err != nil { return "", err }` between two commands.
  abbrev or_return : Made → (String → World → Made) → Made
  or_return (w, (file, none)) next = next file w
  or_return (w, (file, some e)) next = (w, ("", some e))

  unfoldable pub video_to_webp_file : String → World → Made
  unfolding run_one_cmd
  video_to_webp_file file w = or_return (run_one_cmd file "palette" palette_cmd w) λ palette w₁.
      or_return (run_one_cmd palette "gif" gif_cmd w₁) λ gif w₂.
        or_return (run_one_cmd gif "gif" webp_cmd w₂)
          λ webp w₃. (remove gif (remove palette w₃), (webp, none))
    where
      palette_cmd : String → String → String
      palette_cmd i o =
          "ffmpeg -y -ss 0 -t 2 -i "
          <> (i
              <> (" -f image2 -metadata:s:v rotate=0 -vf fps=7,scale=-1:400:flags=lanczos,palettegen "
                  <> o))

      gif_cmd : String → String → String
      gif_cmd i o =
          "ffmpeg -y -ss 0 -t 2 -v error -i "
          <> (file
              <> (" -i "
                  <> (i
                      <> (" -metadata:s:v rotate=0 -filter_complex fps=8,scale=-1:400:flags=lanczos[x];[x][1:v]paletteuse -f gif "
                          <> o))))

      webp_cmd : String → String → String
      webp_cmd i o = "gif2webp -lossy " <> (i <> (" -o " <> o))

  -- A node's `createFile`.
  unfoldable pub make_file : CreateFile → String → World → Made
  unfolding run_one_cmd video_to_webp_file
  make_file download url w =
      let (w', file) = fetch url w in
      elim file [ none ↦ (w', ("", some create_err)) | some f ↦ (w', (f, none)) ]
  make_file thumbnail_image file w =
      run_one_cmd file "thumbnailImage" (λ i o. "convert " <> (i <> (" -resize 400 " <> o))) w
  make_file video_to_cover file w =
      run_one_cmd file "videoToCover"
        (λ i o.
          "ffmpeg -y -ss 0.1 -t 0.001 -i "
          <> (i <> (" -f image2 -metadata:s:v rotate=0 -vframes 1 -vf scale=-1:400 " <> o)))
        w
  make_file blur_image file w =
      run_one_cmd file "blurImage" (λ i o. "convert " <> (i <> (" -blur 45x7 " <> o))) w
  make_file video_to_webp file w = video_to_webp_file file w
