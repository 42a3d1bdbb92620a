-- ===== src/Esphome/Media/Examples.antt =====
-- A volume that is asked for in steps, and five commands at once.
use overdub.Base.{◌++◌, ◌⊎◌, true, false, List, [], ◌∷◌, ◌≡◌, refl, length, inl, arith}
use overdub.Base.Int.{◌+ℤ◌, pos, negsuc}
use overdub.Base.Text.{codes}
use overdub.Base.Strings.{trim}
use overdub.Esphome.Media.{VolumeWant, VolumeSlot, queue_volume, take_volume, merge_want}
use overdub.Esphome.Media.Volumes.{
  VolumeStep, wants, sets, volume_steps, wish_of, pending, no_wish, volume_steps-wish_of,
  volume_step,
}
use overdub.Esphome.Media.Queues.{
  CommandStep, commands, works, Log, command_steps, IsOrderly, command_steps-IsOrderly,
}

abbrev half : VolumeWant
half = record { fraction = 1056964608; absolute = true; steps = pos 0 }

abbrev louder : VolumeWant
louder = record { fraction = 0; absolute = false; steps = pos 1 }

abbrev quieter : VolumeWant
quieter = record { fraction = 0; absolute = false; steps = negsuc 0 }

abbrev idle_slot : VolumeSlot
idle_slot = record { want = quieter; has_pending = false; working = false }

abbrev volume_run : List VolumeStep
volume_run = wants half ∷ sets ∷ wants louder ∷ wants louder ∷ wants quieter ∷ sets ∷ sets ∷ []

-- The last three wants are taken as one.
two_taken :
    (volume_steps volume_run (record { slot = idle_slot; asked = []; taken = [] })).taken
    ≡ half ∷ louder ∷ []
unfolding volume_steps volume_step queue_volume take_volume merge_want ◌+ℤ◌
two_taken = refl

volume_steps-wish_of_example :
    let l = volume_steps volume_run (record { slot = idle_slot; asked = []; taken = [] }) in
    (wish_of (l.taken ++ pending l.slot) no_wish ≡ wish_of l.asked no_wish)
    × ((l.slot.working ≡ true) ⊎ (wish_of l.taken no_wish ≡ wish_of l.asked no_wish))
volume_steps-wish_of_example = volume_steps-wish_of volume_run idle_slot refl

abbrev no_commands : Log
no_commands = record { state = record { queue = []; working = false }; accepted = []; taken = [] }

abbrev ask_stop : CommandStep
ask_stop = commands true (codes " stop ")

abbrev five_commands : List CommandStep
five_commands = ask_stop ∷ ask_stop ∷ works ∷ ask_stop ∷ ask_stop ∷ ask_stop ∷ ask_stop ∷ []

command_steps-IsOrderly_example : IsOrderly (command_steps length five_commands no_commands)
unfolding IsOrderly
command_steps-IsOrderly_example =
    command_steps-IsOrderly length five_commands no_commands (refl, omega arith, inl refl)

four_wait : length (command_steps length five_commands no_commands).state.queue ≡ 4
unfolding command_steps trim
four_wait = refl
