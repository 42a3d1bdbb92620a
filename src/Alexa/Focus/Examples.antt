-- ===== src/Alexa/Focus/Examples.antt =====
-- Runs of the focus watcher.
use overdub.Base.{List, [], ◌∷◌, ◌≡◌, refl}
use overdub.Base.Text.{codes, bytes_eq}
use overdub.Base.Strings.{split_first, after_prefix, trim, split_last}
use overdub.Alexa.Focus.{percent_for}
use overdub.Alexa.Focus.Refines.{
  FocusEvent, says, watch_all, watch_all_fresh, view_of, view_all, fresh_watcher, fresh_view,
}
use overdub.Alexa.Focus.Levels.{IsLevel}

abbrev alarm_evening : List FocusEvent
alarm_evening =
    says 5 (codes "I/MediaFocusControl( 99): requestAudioFocus() from alarm req=2 flags")
    ∷ says 6 (codes "requestAudioFocus() from uid/7 talk req=3")
    ∷ says 7 (codes "removeFocusStackEntry(): removing entry for uid/7 talk")
    ∷ says 8 (codes "abandonAudioFocus() from alarm")
    ∷ []

-- The alarm turns the stream down to 10 %; the entry that leaves the stack because its client asks
-- again stays held, and the release of the alarm leaves the 20 % of it.
alarm_level : (watch_all alarm_evening (fresh_watcher, 100)).1 ≡ 20
unfolding watch_all split_first after_prefix trim bytes_eq split_last fresh_watcher percent_for
alarm_level = refl

watch_all_fresh_example :
    (view_of (watch_all alarm_evening (fresh_watcher, 100)).0 ≡ view_all alarm_evening fresh_view)
    × IsLevel
        (view_all alarm_evening fresh_view).held
        (watch_all alarm_evening (fresh_watcher, 100)).1
watch_all_fresh_example = watch_all_fresh alarm_evening
