-- ===== src/Alexa/Command/Examples.antt =====
-- A command whose first token is refused.
use overdub.Base.{ℕ, [], ◌∷◌, ◌≡◌, refl, false, inl, ◌+◌, ◌==◌, if◌then◌else◌}
use overdub.Base.Text.{codes, bytes_eq}
use overdub.Base.Strings.{trim, equal_fold}
use overdub.Alexa.Command.{Requests, ok, refused, send}
use overdub.Alexa.Command.Tokens.{IsKept, send-IsKept}

-- The world counts the dumps; the cookies of the first one are refused.
abbrev account : Requests ℕ
account = record {
  serialno = codes "G0 ";
  dump = λ n. (n + 1, ok (codes " Atna|a-long-token "));
  exchange_cookies = λ token n. (n, if n == 1 then refused [] else ok tt);
  list_devices = λ n. (
    n,
    ok (record { device_type = codes "dot"; serial_number = codes "g0"; customer_id = [] } ∷ []),
  );
  csrf_token = λ n. (n, ok []);
  send_text = λ csrf device text n. (n, ok tt);
}

send-IsKept_example : IsKept (send account false (codes "stop") [] 0).0
unfolding IsKept
send-IsKept_example = send-IsKept account false (codes "stop") [] 0 (inl refl)

sent_again : send account false (codes "stop") [] 0 ≡ (codes "Atna|a-long-token", 2, ok tt)
unfolding send trim equal_fold bytes_eq
sent_again = refl
