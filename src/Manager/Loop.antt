-- ===== src/Manager/Loop.antt =====
-- The notifications that a request makes.
use high_throughput_notifica.Prelude.{
  ℕ, suc, ◌≡◌, refl, sym, ap, ◌∙◌, Bool, true, false, not, List, [], ◌∷◌, ◌++◌,
}
use high_throughput_notifica.Exec.{Result, ok}
use high_throughput_notifica.Exec.Ends.{
  Ends, bind-Ends, seq-Ends, lift-Ends, pure-Ends, if-Ends, weaken-Ends, both-Ends, Keeps-Ends,
}
use high_throughput_notifica.Exec.Results.{ok≢err, ok-injective}
use high_throughput_notifica.Model.Enums.{NotificationChannel, EventType}
use high_throughput_notifica.Model.Names.{event_member}
use high_throughput_notifica.Model.Channels.{event_channel_map}
use high_throughput_notifica.Model.Row.{Notification}
use high_throughput_notifica.Text.{upper}
use high_throughput_notifica.Services.{Services, World}
use high_throughput_notifica.Request.{NotificationCreate}
use high_throughput_notifica.Manager.{create_channels, create_new, create_notification}
use high_throughput_notifica.Manager.Rows.{create_channels-Has}
use high_throughput_notifica.Manager.Made.{
  MadeFor, no_channels, skipped, made, Round, nothing, added, create_channel-Ends,
}

append-nil {ℓ} : {A : Type ℓ} (l : List A) → l ≡ l ++ []
append-nil [] = refl
append-nil (x ∷ l) = ap (λ m. x ∷ m) (append-nil l)

append-snoc {ℓ} : {A : Type ℓ} (l : List A) (x : A) (m : List A) → (l ++ x ∷ []) ++ m ≡ l ++ x ∷ m
append-snoc [] x m = refl
append-snoc (y ∷ l) x m = ap (λ k. y ∷ k) (append-snoc l x m)

module _ (E : Services) (clock : ℕ → ℕ) (p : NotificationCreate) where
  abbrev AfterLoop :
      List NotificationChannel → List Notification → Result (List Notification) → World E → Type 0
  AfterLoop cs created r v =
      (l : List Notification)
      → r ≡ ok l
      → (ns : List Notification) × (l ≡ created ++ ns) × MadeFor p v cs ns

  -- A round before the rest of the loop.
  after_round-Ends :
      (k : ℕ) (c : NotificationChannel) (cs : List NotificationChannel)
      (created more : List Notification) (t : World E)
      → Round E p c created more t
      → Ends (AfterLoop cs more) (create_channels {E = E} clock k p cs more) t
      → Ends (AfterLoop (c ∷ cs) created) (create_channels {E = E} clock k p cs more) t
  after_round-Ends k c cs created more t (nothing e) loop =
      weaken-Ends _ t loop λ r v h l b.
        let (ns, grown, rest) = h l b in (ns, grown ∙ ap (λ m. m ++ ns) e, skipped rest)
  after_round-Ends k c cs created more t (added n e is_made here) loop =
      weaken-Ends _ t
        (both-Ends _ t loop (Keeps-Ends _ t (create_channels-Has E n.id n clock k p cs more) here))
        λ r v h l b.
          let (ns, grown, rest) = h.0 l b in
          (n ∷ ns, grown ∙ ap (λ m. m ++ ns) e ∙ append-snoc created n ns, made is_made h.1 rest)

  create_channels-Ends :
      (k : ℕ) (cs : List NotificationChannel) (created : List Notification) (w : World E)
      → Ends (AfterLoop cs created) (create_channels {E = E} clock k p cs created) w
  unfolding create_channels
  create_channels-Ends k [] created w =
      pure-Ends created w (λ l b. ([], sym (ok-injective b) ∙ append-nil created, no_channels))
  create_channels-Ends k (c ∷ cs) created w =
      seq-Ends _ _ w (create_channel-Ends E p (clock k) c created w)
        (λ f t h l b. absurd (ok≢err b))
        (λ more t h.
          after_round-Ends (suc k) c cs created more t (h more refl)
            (create_channels-Ends (suc k) cs more t))

  -- What a request that was no duplicate made.
  abbrev AllMade : Result (List Notification × Bool) → World E → Type 0
  AllMade r v =
      (created : List Notification)
      → r ≡ ok (created, false)
      → (event : EventType) × (event_member (upper p.event_type) ≡ ok event)
        × MadeFor p v (event_channel_map event) created

  pair-injective :
      {l m : List Notification} {a b : Bool}
      → ◌≡◌ {A = Result (List Notification × Bool)} (ok (l, a)) (ok (m, b))
      → (l ≡ m) × (a ≡ b)
  pair-injective e = (ap (λ q. q.0) (ok-injective e), ap (λ q. q.1) (ok-injective e))

  true≢false : ¬ (true ≡ false)
  true≢false e = cc

  create_new-Ends : (w : World E) → Ends AllMade (create_new {E = E} clock p) w
  unfolding create_new
  create_new-Ends w =
      bind-Ends _ _ w (λ f raised l b. absurd (ok≢err b))
        λ _ _.
          lift-Ends _ _ _ (λ f raised l b. absurd (ok≢err b))
            λ event is_event.
              seq-Ends _ _ _ (create_channels-Ends 0 (event_channel_map event) [] _)
                (λ f t h l b. absurd (ok≢err b))
                λ created t h. pure-Ends _ t λ l b.
                  let (ns, grown, rest) = h created refl in
                  (event, is_event, rw (← (sym grown ∙ (pair-injective b).0)) rest)

  create_notification-Ends : (w : World E) → Ends AllMade (create_notification {E = E} clock p) w
  unfolding create_notification
  create_notification-Ends w =
      bind-Ends _ _ w (λ f raised l b. absurd (ok≢err b))
        λ is_new _.
          if-Ends (not is_new) _ _ _
            (λ _. pure-Ends _ _ (λ l b. absurd (true≢false (pair-injective b).1)))
            (λ _. create_new-Ends _)

-- When a request that is no duplicate returns, its event is known, and the notifications that it
-- returns are those of channels of the event, at most one for each and in the order of the channel
-- map; each of them is stored, is pending, has not been tried, and has the key, the recipient, the
-- content, the numbers and the channel that the request and the channel give it.
pub create_notification-MadeFor :
    (E : Services) (clock : ℕ → ℕ) (p : NotificationCreate) (w : World E)
    (created : List Notification)
    → (create_notification {E = E} clock p w).0 ≡ ok (created, false)
    → (event : EventType) × (event_member (upper p.event_type) ≡ ok event)
      × MadeFor p (create_notification {E = E} clock p w).1 (event_channel_map event) created
create_notification-MadeFor E clock p w created e =
    (create_notification-Ends E clock p w).at created e
