-- ===== src/Request/Valid.antt =====
-- What the validators promise the manager.
use high_throughput_notifica.Prelude.{
  ◌≡◌, ◌≢◌, refl, sym, subst, clash, Option, none, some, String, true, false, List, [], ◌∷◌, All,
  Bool-cases, inl, inr, str_eq, eq_iff,
}
use high_throughput_notifica.Exec.{Result, ok, err}
use high_throughput_notifica.Exec.Results.{ok≢err, ok-injective}
use high_throughput_notifica.Text.{lower, upper}
use high_throughput_notifica.Model.Json.{Json, Fields, get}
use high_throughput_notifica.Model.Enums.{
  NotificationChannel, EventType, critical, high, medium, low, order, payment, shipping,
  NotificationPriority, SourceService,
}
use high_throughput_notifica.Model.Names.{
  channel_name, event_member, source_member, priority_member,
}
use high_throughput_notifica.Model.Channels.{event_channel_map, channel_recipient_field}
use high_throughput_notifica.Request.{
  RecipientInfo, NotificationCreate, recipient_value, is_one_of, allowed_name, is_blank, is_missing,
  check_channel, check_channels, validate_recipient_and_content, make_create, source_names,
  event_names, priority_names, ◌>>=◌,
}

-- The recipient's address for a channel is there and is not empty, and the content is there.
pub record Ready (recipient : RecipientInfo) (content : Fields) (channel : NotificationChannel)
    : Type 0 where
  pub address : String
  pub is_address : recipient_value recipient (channel_recipient_field channel) ≡ some address
  pub filled : address ≢ ""
  pub body : Json
  pub is_body : get (channel_name channel) content ≡ some body

-- The names of the request are members of their enumerations, and every channel of its event is ready.
pub record Valid (p : NotificationCreate) : Type 0 where
  pub source : (s : SourceService) × (source_member (upper p.source_service) ≡ ok s)
  pub priority : (q : NotificationPriority) × (priority_member (upper p.priority) ≡ ok q)
  pub event : EventType
  pub is_event : event_member (upper p.event_type) ≡ ok event
  pub channels : All (Ready p.recipient p.content) (event_channel_map event)

bind-ok {ℓ} :
    {A B : Type ℓ} (m : Result A) (f : A → Result B) (b : B)
    → (m >>= f) ≡ ok b
    → (a : A) × (m ≡ ok a) × (f a ≡ ok b)
bind-ok (ok a) f b e = (a, refl, e)
bind-ok (err x) f b e = absurd (ok≢err e)

module _ (P : String → Type 0) where
  is_one_of-All : (s : String) (names : List String) → is_one_of s names ≡ true → All P names → P s
  unfolding is_one_of
  is_one_of-All s [] e h = cc
  is_one_of-All s (name ∷ rest) e (here, there) = elim (Bool-cases (str_eq s name)) [
    | inl hit ↦ subst P (sym ((eq_iff s name).0 hit)) here
    | inr miss ↦ is_one_of-All s rest (rw miss at e) there
  ]

  allowed_name-All :
      (names : List String) (v s : String) → allowed_name names v ≡ ok s → All P names → P s
  unfolding allowed_name
  allowed_name-All names v s e h = elim (Bool-cases (is_one_of (lower v) names)) [
    | inl hit ↦ subst P (ok-injective (rw hit at e)) (is_one_of-All (lower v) names hit h)
    | inr miss ↦ absurd (ok≢err (rw miss at e))
  ]

-- The text is the lower-case name of a member.
abbrev IsSource : String → Type 0
IsSource s = (x : SourceService) × (source_member (upper s) ≡ ok x)

abbrev IsPriority : String → Type 0
IsPriority s = (x : NotificationPriority) × (priority_member (upper s) ≡ ok x)

source_names-All : All IsSource source_names
unfolding source_member upper
source_names-All = ((order, refl), ((payment, refl), ((shipping, refl), tt)))

priority_names-All : All IsPriority priority_names
unfolding priority_member upper
priority_names-All = ((critical, refl), ((high, refl), ((medium, refl), ((low, refl), tt))))

not_blank :
    (o : Option String)
    → is_blank o ≡ false
    → (address : String) × (o ≡ some address) × (address ≢ "")
unfolding is_blank
not_blank none filled = cc
not_blank (some address) filled = (address, refl, λ same. clash ((eq_iff address "").1 same) filled)

not_missing : (o : Option Json) → is_missing o ≡ false → (body : Json) × (o ≡ some body)
unfolding is_missing
not_missing none there = cc
not_missing (some body) there = (body, refl)

check_channel-Ready :
    (r : RecipientInfo) (c : Fields) (channel : NotificationChannel)
    → check_channel r c channel ≡ ok tt
    → Ready r c channel
unfolding check_channel
check_channel-Ready r c channel e =
    elim (Bool-cases (is_blank (recipient_value r (channel_recipient_field channel)))) [
      | inl blank ↦ absurd (ok≢err (rw blank at e))
      | inr address ↦ elim (Bool-cases (is_missing (get (channel_name channel) c))) [
        | inl missing ↦ absurd (ok≢err (rw (address, missing) at e))
        | inr there ↦
            let (text, is_text, filled) = not_blank _ address in
            let (body, is_body) = not_missing _ there in
            record {
              address = text;
              is_address = is_text;
              filled = filled;
              body = body;
              is_body = is_body;
            }
      ]
    ]

check_channels-Ready :
    (r : RecipientInfo) (c : Fields) (cs : List NotificationChannel)
    → check_channels r c cs ≡ ok tt
    → All (Ready r c) cs
unfolding check_channels
check_channels-Ready r c [] e = tt
check_channels-Ready r c (channel ∷ rest) e =
    let (_, here, there) = bind-ok (check_channel r c channel) _ tt e in
    (check_channel-Ready r c channel here, check_channels-Ready r c rest there)

-- A request that the validators let through names a source, a priority and an event of the
-- enumerations, and has a recipient that is not empty, and a content, for
-- every channel of the event: the conversions of
-- the manager do not raise on it, and every channel has what it needs.
pub make_create-Valid : (p q : NotificationCreate) → make_create p ≡ ok q → Valid q
unfolding make_create validate_recipient_and_content
make_create-Valid p q e =
    let (source, is_source, e1) = bind-ok (allowed_name source_names p.source_service) _ q e in
    let (event_text, is_text, e2) = bind-ok (allowed_name event_names p.event_type) _ q e1 in
    let (priority, is_priority, e3) = bind-ok (allowed_name priority_names p.priority) _ q e2 in
    let (event, is_event, e4) = bind-ok (event_member (upper event_text)) _ q e3 in
    let (_, checked, e5) =
      bind-ok (check_channels p.recipient p.content (event_channel_map event)) _ q e4 in
    let made = record p { source_service = source; event_type = event_text; priority = priority } in
    subst Valid (ok-injective e5) (record {
      source =
          allowed_name-All IsSource source_names p.source_service source is_source source_names-All;
      priority =
          allowed_name-All IsPriority priority_names p.priority priority is_priority
            priority_names-All;
      event = event;
      is_event = is_event;
      channels = check_channels-Ready p.recipient p.content (event_channel_map event) checked;
    })
