-- ===== src/App/Uptime.antt =====
-- The application's own providers over time, and what GET /health/providers shows of them.
use high_throughput_notifica.Prelude.{
  if◌then◌else◌, ◌≡◌, refl, sym, ap, subst, ◌∙◌, String, Bool, true, false, Option, none, some,
  List, [], ◌∷◌, Bool-cases, inl, inr,
}
use high_throughput_notifica.Exec.{
  Exec, Exception, ok, gets, ◌>>=◌, pure, raise, try_except, connection_error, key_error,
}
use high_throughput_notifica.Model.Enums.{NotificationChannel, email, sms, push, provider_down}
use high_throughput_notifica.Model.Json.{Json}
use high_throughput_notifica.Provider.{BaseProvider, ProviderResult}
use high_throughput_notifica.Provider.Mock.{
  Mock, Luck, health_check, simulate_downtime, simulate_recovery, declined, caught, check_healthy,
  email_send, sms_send, push_send,
}
use high_throughput_notifica.Provider.Mock.Contract.{Honest, mock_send-Contract}
use high_throughput_notifica.App.{
  Mocks, on_email, on_sms, on_push, on_part, providers, check, health_providers,
}

-- A call of one of the providers, or a request for the health of them all.
pub data Use : Type 0 where
  downtime : NotificationChannel → Use
  recovery : NotificationChannel → Use
  sending : NotificationChannel → Luck → String → Json → Use
  asking : Luck → Use

unfoldable pub on_channel : {A : Type 0} → NotificationChannel → Exec Mock A → Exec Mocks A
on_channel email = on_email
on_channel sms = on_sms
on_channel push = on_push

-- The flag of the provider of a channel.
unfoldable pub flag : NotificationChannel → Mocks → Bool
flag email s = s.email_mock.healthy
flag sms s = s.sms_mock.healthy
flag push s = s.push_mock.healthy

-- `providers[channel].send(recipient, content)`
unfoldable pub send : {S : Type 0} → Option (BaseProvider S) → String → Json → Exec S ProviderResult
send none recipient content = raise key_error
send (some provider) recipient content = provider.send recipient content

-- `set c d v u` is `v` for the channel that `d` names, and `u` for any other one.
unfoldable pub set : {A : Type 0} → NotificationChannel → NotificationChannel → A → A → A
set email email v u = v
set sms sms v u = v
set push push v u = v
set c d v u = u

-- The last word of a sequence of uses on the provider of a channel, whose flag is `up` at first.
unfoldable pub last_word : NotificationChannel → List Use → Bool → Bool
last_word c [] up = up
last_word c (downtime d ∷ uses) up = last_word c uses (set c d false up)
last_word c (recovery d ∷ uses) up = last_word c uses (set c d true up)
last_word c (sending d draws recipient content ∷ uses) up = last_word c uses up
last_word c (asking draws ∷ uses) up = last_word c uses up

module _ (str_of : Exception → String) (luck : Luck) where
  -- The answer of a provider whose last word is `up`.
  pub data Answered (up : Bool) (r : ProviderResult) : Type 0 where
    while_down : up ≡ false → r ≡ declined provider_down (str_of connection_error) → Answered up r
    while_up : up ≡ true → Honest true r → Answered up r

  unfoldable pub apply : Use → Mocks → Mocks
  apply (downtime d) s = (on_channel d (simulate_downtime str_of luck) s).1
  apply (recovery d) s = (on_channel d (simulate_recovery str_of luck) s).1
  apply (sending d draws recipient content) s =
      (send (providers str_of draws d) recipient content s).1
  apply (asking draws) s = (health_providers (providers str_of draws) s).1

  unfoldable pub after : List Use → Mocks → Mocks
  after [] s = s
  after (u ∷ uses) s = after uses (apply u s)

  send-Honest :
      (c : NotificationChannel) (draws : Luck) (recipient : String) (content : Json) (s : Mocks)
      → (r : ProviderResult) × (send (providers str_of draws c) recipient content s ≡ (ok r, s))
        × Honest (flag c s) r
  unfolding flag send providers on_part on_email on_sms on_push
  send-Honest email draws recipient content s =
      let (r, answered, honest) =
        (mock_send-Contract str_of draws).0.answers recipient content s.email_mock in
      (r, rw answered refl, honest)
  send-Honest sms draws recipient content s =
      let (r, answered, honest) =
        (mock_send-Contract str_of draws).1.answers recipient content s.sms_mock in
      (r, rw answered refl, honest)
  send-Honest push draws recipient content s =
      let (r, answered, honest) =
        (mock_send-Contract str_of draws).2.answers recipient content s.push_mock in
      (r, rw answered refl, honest)

  health_frame :
      (draws : Luck) (s : Mocks)
      → health_providers (providers str_of draws) s ≡ (
        ok (record {
          email = if s.email_mock.healthy then "up" else "down";
          sms = if s.sms_mock.healthy then "up" else "down";
          push = if s.push_mock.healthy then "up" else "down";
        }),
        s,
      )
  unfolding health_providers check providers on_part on_email on_sms on_push health_check gets pure
      ◌>>=◌
  health_frame draws s = refl

  flag-downtime :
      (c d : NotificationChannel) (s : Mocks)
      → flag c (apply (downtime d) s) ≡ set c d false (flag c s)
  unfolding flag apply set on_channel on_email on_sms on_push simulate_downtime
  flag-downtime email email s = refl
  flag-downtime email sms s = refl
  flag-downtime email push s = refl
  flag-downtime sms email s = refl
  flag-downtime sms sms s = refl
  flag-downtime sms push s = refl
  flag-downtime push email s = refl
  flag-downtime push sms s = refl
  flag-downtime push push s = refl

  flag-recovery :
      (c d : NotificationChannel) (s : Mocks)
      → flag c (apply (recovery d) s) ≡ set c d true (flag c s)
  unfolding flag apply set on_channel on_email on_sms on_push simulate_recovery
  flag-recovery email email s = refl
  flag-recovery email sms s = refl
  flag-recovery email push s = refl
  flag-recovery sms email s = refl
  flag-recovery sms sms s = refl
  flag-recovery sms push s = refl
  flag-recovery push email s = refl
  flag-recovery push sms s = refl
  flag-recovery push push s = refl

  flag-after :
      (c : NotificationChannel) (uses : List Use) (s : Mocks)
      → flag c (after uses s) ≡ last_word c uses (flag c s)
  unfolding after last_word
  flag-after c [] s = refl
  flag-after c (downtime d ∷ uses) s =
      flag-after c uses (apply (downtime d) s) ∙ ap (last_word c uses) (flag-downtime c d s)
  flag-after c (recovery d ∷ uses) s =
      flag-after c uses (apply (recovery d) s) ∙ ap (last_word c uses) (flag-recovery c d s)
  flag-after c (sending d draws recipient content ∷ uses) s =
      flag-after c uses (apply (sending d draws recipient content) s)
      ∙ ap (λ t. last_word c uses (flag c t))
          (unfold apply in ap (λ p. p.1) (send-Honest d draws recipient content s).1)
  flag-after c (asking draws ∷ uses) s =
      flag-after c uses (apply (asking draws) s)
      ∙ ap (λ t. last_word c uses (flag c t)) (unfold apply in ap (λ p. p.1) (health_frame draws s))

  send-down :
      (c : NotificationChannel) (draws : Luck) (recipient : String) (content : Json) (s : Mocks)
      → flag c s ≡ false
      → send (providers str_of draws c) recipient content s
        ≡ (ok (declined provider_down (str_of connection_error)), s)
  unfolding flag send providers on_part on_email on_sms on_push email_send sms_send push_send
      check_healthy try_except caught raise gets pure ◌>>=◌
  send-down email draws recipient content s down = rw down refl
  send-down sms draws recipient content s down = rw down refl
  send-down push draws recipient content s down = rw down refl

  health-shown :
      (uses : List Use) (s : Mocks) (draws : Luck)
      → health_providers (providers str_of draws) (after uses s) ≡ (
        ok (record {
          email = if last_word email uses (flag email s) then "up" else "down";
          sms = if last_word sms uses (flag sms s) then "up" else "down";
          push = if last_word push uses (flag push s) then "up" else "down";
        }),
        after uses s,
      )
  unfolding flag
  health-shown uses s draws =
      rw (sym (flag-after email uses s), sym (flag-after sms uses s), sym (flag-after push uses s))
        (health_frame draws (after uses s))

  send-Answered :
      (uses : List Use) (s : Mocks) (draws : Luck) (c : NotificationChannel) (recipient : String)
      (content : Json)
      → (r : ProviderResult) × (send (providers str_of draws c) recipient content (after uses s)
          ≡ (ok r, after uses s))
        × Answered (last_word c uses (flag c s)) r
  send-Answered uses s draws c recipient content =
      let (r, answered, honest) = send-Honest c draws recipient content (after uses s) in
      elim (Bool-cases (last_word c uses (flag c s))) [
        | inl up ↦
            (r, answered, while_up up (subst (λ b. Honest b r) (flag-after c uses s ∙ up) honest))
        | inr down ↦ (
          _,
          send-down c draws recipient content (after uses s) (flag-after c uses s ∙ down),
          while_down down refl,
        )
      ]

  -- After any sequence of simulated downtimes and recoveries, deliveries and requests for the health,
  -- GET /health/providers shows each provider as the last downtime or recovery of its own channel
  -- left it, or as it was at first when there was none, and changes no provider. A provider that it
  -- shows as down declines every message because it is down; one that it shows as up answers with a
  -- delivery that has an identifier, or with a failure whose code the dispatch knows.
  pub health_providers-last_word :
      (uses : List Use) (s : Mocks) (draws : Luck) (c : NotificationChannel) (recipient : String)
      (content : Json)
      → let t = after uses s in
        (health_providers (providers str_of draws) t ≡ (
          ok (record {
            email = if last_word email uses (flag email s) then "up" else "down";
            sms = if last_word sms uses (flag sms s) then "up" else "down";
            push = if last_word push uses (flag push s) then "up" else "down";
          }),
          t,
        ))
        × (r : ProviderResult) × (send (providers str_of draws c) recipient content t ≡ (ok r, t))
        × Answered (last_word c uses (flag c s)) r
  health_providers-last_word uses s draws c recipient content =
      let (r, answered, kind) = send-Answered uses s draws c recipient content in
      (health-shown uses s draws, r, answered, kind)
