-- ===== src/Sendspin/Activate/Examples.antt =====
-- Runs of the activation of internal/sendspin/hello.go, and its theorems at concrete inputs.
use overdub.Base.{◌≡◌, ◌⊎◌, refl, true, false, none, some, [], ◌∷◌}
use overdub.Base.Text.{codes, bytes_eq, contains}
use overdub.Sendspin.Activate.{
  sentinel, activity_playback, activity_pairing, role_player_v1, ServerActivate, goodbye,
  pairing_required, roles_are, decide_activate, keep_supported, activities_allowed,
  playback_capable, allowed_activity_sets, any_same_set, same_set, sort, insert_sorted, lex_le,
  texts_eq, refusal, admissible, pairing_method_ok, keep_supported_from,
}
use overdub.Sendspin.Activate.Access.{decide_activate_roles, may_play}

abbrev asks_to_play : ServerActivate
asks_to_play = record {
  activities = activity_playback ∷ [];
  active_roles = some (codes "artwork@v1" ∷ role_player_v1 ∷ role_player_v1 ∷ []);
  pairing = none;
}

abbrev asks_to_pair : ServerActivate
asks_to_pair = record {
  activities = activity_pairing ∷ [];
  active_roles = none;
  pairing = some (codes "pairing_psk");
}

unpaired_plays : decide_activate sentinel true [] asks_to_play [] ≡ roles_are (role_player_v1 ∷ [])
unfolding decide_activate keep_supported keep_supported_from activities_allowed playback_capable
    allowed_activity_sets any_same_set same_set sort insert_sorted lex_le texts_eq pairing_method_ok
    contains bytes_eq
unpaired_plays = refl

unpaired_is_refused : decide_activate sentinel false [] asks_to_play [] ≡ goodbye pairing_required
unfolding decide_activate keep_supported keep_supported_from activities_allowed playback_capable
    allowed_activity_sets any_same_set same_set sort insert_sorted lex_le texts_eq pairing_method_ok
    contains bytes_eq refusal admissible
unpaired_is_refused = refl

decide_activate_roles_example :
    (may_play sentinel true ≡ true)
    × ((asks_to_play.activities ≡ []) ⊎ (asks_to_play.activities ≡ activity_playback ∷ []))
decide_activate_roles_example =
    decide_activate_roles sentinel true [] asks_to_play [] role_player_v1 [] unpaired_plays
