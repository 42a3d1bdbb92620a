-- ===== src/Esphome/Commands/Examples.antt =====
-- A clip to be played, and a volume of 0.
use overdub.Base.{true, [], ◌≡◌, refl, arith}
use overdub.Base.Text.{codes}
use overdub.Esphome.Proto.RoundTrip.{write_all}
use overdub.Esphome.Commands.{parsed, plays, sets_volume, read_media, media_wish, no_command}
use overdub.Esphome.Commands.Media.{fields_of, IsWish, read_media-write_all}

read_media-write_all_example :
    read_media 5 (write_all (fields_of 5 (plays (codes "http://dot/a.mp3") true)) [])
    ≡ parsed (plays (codes "http://dot/a.mp3") true)
unfolding IsWish
read_media-write_all_example =
    read_media-write_all 5 (plays (codes "http://dot/a.mp3") true) (omega arith)
      (omega arith, omega arith)

volume_left_out : media_wish 0 (record no_command { has_volume = true }) ≡ sets_volume 0
unfolding media_wish no_command
volume_left_out = refl
