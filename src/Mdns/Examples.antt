-- ===== src/Mdns/Examples.antt =====
-- A responder with one service, and what it does.
use overdub.Base.{
  ◌⊎◌, ◌<◌, true, false, none, some, List, [], ◌∷◌, ◌≡◌, ◌↔◌, if◌then◌else◌, refl, arith,
}
use overdub.Base.Text.{codes, contains}
use overdub.Base.Strings.{split_on}
use overdub.Mdns.{instance_for, Advert, Responder}
use overdub.Mdns.Names.{check_each, valid_name}
use overdub.Mdns.Names.Labels.{IsName, valid_name_iff}
use overdub.Mdns.Names.Distinct.{IsNew, AreFit, check_each-AreFit}
use overdub.Mdns.Questions.{Query, wants}
use overdub.Mdns.Questions.Asks.{is_query, reply_of}
use overdub.Mdns.Questions.Asks.Equal.{wants-reply_of}
use overdub.Mdns.Answers.{announcement_of, answers_of, additionals_of}
use overdub.Mdns.Answers.Ttls.{ended, AreHeld, answers_of_ended}
use overdub.Mdns.Rates.Bounds.{IsLimited}
use overdub.Mdns.Replies.Flood.{Arrival, packet, announced, arrive_all, arrive_all_bound}
use overdub.Mdns.Life.{
  decide, begins, steps, advertises, numbers, builds, decides, writes, advertise, Life, asked,
  decided, written,
}
use overdub.Mdns.Life.Sends.{Checked, Life-Checked}

abbrev api : Advert
api = record { service = codes "_esphomelib._tcp.local."; port = 6053; records = codes "v=1" ∷ [] }

abbrev dot : Responder
dot = record {
  instance_name = codes "dot";
  services = api ∷ [];
  gen = 0;
  ip = 192 ∷ 168 ∷ 1 ∷ 9 ∷ [];
  subnet = λ src. true;
  restart = false;
  last_sent = none;
  unicast_end = 0;
  unicasts = 0;
  send_failed = none;
  gone = false;
}

-- A browser that asks for the service, and wants the answer for itself.
abbrev browse_query : Query
browse_query = record {
  response = some false;
  questions = record { name = codes "_ESPHomeLib._tcp.local."; kind = 12; class = 32769 } ∷ [];
  is_done = true;
  answers = [];
}

wants-reply_of_example : wants browse_query dot ≡ (
    if is_query browse_query
    then reply_of browse_query.questions browse_query.answers dot
    else none)
wants-reply_of_example = wants-reply_of browse_query dot

abbrev flood : List Arrival
flood =
    packet 3 [] browse_query
    ∷ packet 4 [] browse_query
    ∷ announced 5
    ∷ packet 2000000000 [] browse_query
    ∷ []

arrive_all_bound_example :
    IsLimited 10 (arrive_all flood (dot, record { clock = 10; to_all = 0; to_one = 0 })).1
arrive_all_bound_example = arrive_all_bound 10 flood dot refl refl (omega arith)

valid_name_iff_example :
    (valid_name (codes "_esphomelib._tcp.local.") ≡ none) ↔ IsName (codes "_esphomelib._tcp.local.")
valid_name_iff_example = valid_name_iff (codes "_esphomelib._tcp.local.")

check_each-AreFit_example : IsNew [] (api ∷ []) × AreFit (codes "dot") (api ∷ [])
unfolding check_each valid_name split_on instance_for contains
check_each-AreFit_example = check_each-AreFit (codes "dot") [] (api ∷ []) refl

answers_of_ended_example :
    (ended (answers_of 4500 (announcement_of dot) dot) ≡ answers_of 0 (announcement_of dot) dot)
    × (ended (additionals_of 4500 (announcement_of dot) dot)
        ≡ additionals_of 0 (announcement_of dot) dot)
    × AreHeld 4500 (answers_of 4500 (announcement_of dot) dot)
    × AreHeld 4500 (additionals_of 4500 (announcement_of dot) dot)
answers_of_ended_example = answers_of_ended 4500 (announcement_of dot) dot

-- The adverts are withdrawn between the check and the write: the old ones are still sent.
late_write : Life (dot, asked) 1 (advertise [] (decide 7 0 (api ∷ []) dot).0, written (api ∷ []))
unfolding decide
late_write =
    let checked : Life (dot, asked) 0 ((decide 7 0 (api ∷ []) dot).0, decided (api ∷ [])) =
      steps (steps (steps begins (numbers dot)) (builds dot 0)) (decides 7 0 (api ∷ []) dot) in
    steps (advertises [] checked) (writes (api ∷ []) _)

Life-Checked_example :
    (c : Checked
      (dot, asked)
      1
      (advertise [] (decide 7 0 (api ∷ []) dot).0, written (api ∷ []))
      (api ∷ []))
    × (((advertise [] (decide 7 0 (api ∷ []) dot).0).services ≡ api ∷ []) ⊎ (0 < c.later))
Life-Checked_example =
    Life-Checked dot 1 (advertise [] (decide 7 0 (api ∷ []) dot).0) (api ∷ []) (omega arith)
      (omega arith) late_write
