-- ===== src/Migration/Same.antt =====
-- The migration against the class that it is for, and its way back.
use high_throughput_notifica.Prelude.{
  ◌≡◌, ◌≢◌, refl, sym, ap, ◌∙◌, subst, none≢some, true, false, String, Option, none, some, str_eq,
  eq_iff, Bool-cases, inl, inr,
}
use high_throughput_notifica.Exec.{Exception, ok, err}
use high_throughput_notifica.Exec.Ends.{Ends, bind-Ends, seq-Ends}
use high_throughput_notifica.Exec.Results.{ok≢err}
use high_throughput_notifica.Migration.{migrated_columns, upgrade, downgrade}
use high_throughput_notifica.Migration.Schema.{
  Key, Relation, a_table, an_index, Names, take_out, unless_of, installed,
}
use high_throughput_notifica.Migration.Ddl.{Catalog}
use high_throughput_notifica.Migration.Mapped.{tablename, notification_metadata}
use high_throughput_notifica.Migration.Env.{Runner, Reachable, run_migrations_online}
use high_throughput_notifica.Migration.Online.{Out, online-Done, online-Raises}
use high_throughput_notifica.Migration.Views.{
  View, Done, then-Done, create_table-Done, create_unique-Done, create_index-Done, drop_index-Done,
  drop_constraint-Done, drop_table-Done,
}

-- The names of the migration stand for nothing yet.
pub record Free (names : Names) : Type 0 where
  pub table : names "notifications" ≡ none
  pub unique : names "uq_notifications_idempotency_key" ≡ none
  pub worker : names "ix_notifications_worker" ≡ none
  pub channel : names "ix_notifications_channel" ≡ none
  pub event_type : names "ix_notifications_event_type" ≡ none

module _ (C : Catalog) (d : C.Db) (names : Names) (view : View C d names) where
  upgrade-Done : Free names → Ends (Done C (installed notification_metadata names)) (upgrade C) d
  unfolding upgrade migrated_columns notification_metadata
  upgrade-Done free =
      seq-Ends _ _ d
        (create_table-Done C d names view "notifications" migrated_columns refl free.table)
        (λ e x q. absurd (ok≢err q.0.0))
        λ a x q.
          then-Done C _ _ x _ _
            (create_unique-Done C x _ q.0.1 _ _ _ _ refl refl refl refl q.1 free.unique)
            λ x v.
              then-Done C _ _ x _ _
                (create_index-Done C x _ v _ _ _ _ refl refl refl refl free.worker)
                λ x v.
                  then-Done C _ _ x _ _
                    (create_index-Done C x _ v _ _ _ _ refl refl refl refl free.channel)
                    λ x v. create_index-Done C x _ v _ _ _ _ refl refl refl refl free.event_type

upgrade-refused :
    (C : Catalog) (d : C.Db) (r : Relation)
    → C.relation d "notifications" ≡ some r
    → Ends (λ end _. (e : Exception) × (end ≡ err e)) (upgrade C) d
unfolding upgrade
upgrade-refused C d r there =
    bind-Ends _ _ d (λ e raised. (e, refl))
      λ a returned.
        let (e, raised) = C.create_table_old "notifications" migrated_columns d r there in
        absurd (ok≢err (sym raised ∙ returned))

abbrev taken_out : Names → Names
taken_out names = take_out "uq_notifications_idempotency_key" (
    take_out "ix_notifications_worker"
      (take_out "ix_notifications_channel" (take_out "ix_notifications_event_type" names)))

abbrev dropped : Names → Names
dropped names u = unless_of "notifications" (take_out "notifications" (taken_out names) u)

downgrade-Done :
    (C : Catalog) (d : C.Db) (names : Names)
    → View C d (installed notification_metadata names)
    → Ends (Done C (dropped (installed notification_metadata names))) (downgrade C) d
unfolding downgrade notification_metadata
downgrade-Done C d names view =
    then-Done C _ _ d _ _ (drop_index-Done C d _ view _ _ _ refl refl refl) λ x v.
      then-Done C _ _ x _ _ (drop_index-Done C x _ v _ _ _ refl refl refl) λ x v.
        then-Done C _ _ x _ _ (drop_index-Done C x _ v _ _ _ refl refl refl) λ x v.
          then-Done C _ _ x _ _ (drop_constraint-Done C x _ v _ _ _ refl refl refl)
            λ x v. drop_table-Done C x _ v _ _ refl refl

unless_of-kept :
    (t : String) (o : Option Relation)
    → ((key : Key) → o ≢ some (an_index t key))
    → unless_of t o ≡ o
unless_of-kept t none none_on = refl
unless_of-kept t (some (a_table columns)) none_on = refl
unless_of-kept t (some (an_index on key)) none_on = elim (Bool-cases (str_eq on t)) [
  | inl hit ↦ absurd (none_on key (ap (λ x. some (an_index x key)) ((eq_iff on t).0 hit)))
  | inr miss ↦ rw miss refl
]

-- Without the table there is no index on it, and what was put in is all that is taken out.
dropped-installed :
    (names : Names)
    → Free names
    → ((u : String) (key : Key) → names u ≢ some (an_index "notifications" key))
    → (u : String) → dropped (installed notification_metadata names) u ≡ names u
unfolding notification_metadata
dropped-installed names free none_on u = elim (Bool-cases (str_eq u "notifications")) [
  | inl hit ↦ at "notifications" hit (sym free.table)
  | inr m1 ↦ elim (Bool-cases (str_eq u "uq_notifications_idempotency_key")) [
    | inl hit ↦ at "uq_notifications_idempotency_key" hit (sym free.unique)
    | inr m2 ↦ elim (Bool-cases (str_eq u "ix_notifications_worker")) [
      | inl hit ↦ at "ix_notifications_worker" hit (sym free.worker)
      | inr m3 ↦ elim (Bool-cases (str_eq u "ix_notifications_channel")) [
        | inl hit ↦ at "ix_notifications_channel" hit (sym free.channel)
        | inr m4 ↦ elim (Bool-cases (str_eq u "ix_notifications_event_type")) [
          | inl hit ↦ at "ix_notifications_event_type" hit (sym free.event_type)
          | inr m5 ↦ rw (m1, m2, m3, m4, m5) (unless_of-kept _ (names u) (none_on u))
        ]
      ]
    ]
  ]
]
  where
    at :
        (name : String)
        → str_eq u name ≡ true
        → dropped (installed notification_metadata names) name ≡ names name
        → dropped (installed notification_metadata names) u ≡ names u
    at name hit e =
        subst (λ v. dropped (installed notification_metadata names) v ≡ names v)
          (sym ((eq_iff u name).0 hit)) e

-- On a database where the names of the migration are free, and that answers: the upgrade in the online
-- mode returns and leaves every name but alembic's own alembic_version as `create_all` for the class
-- does, which after the upgrade changes no name; the downgrade after it returns and leaves every name
-- but that one as it was before. After `create_all` the upgrade raises, and is rolled back: every name
-- but that one stays.
pub upgrade-Same :
    (C : Catalog) (X : Runner C) (R : Reachable X) (d : C.Db)
    → Free (C.relation d)
    → let (r, v) = run_migrations_online X (upgrade C) d in
      let (made, c) = C.create_all notification_metadata d in
      let (again, v') = C.create_all notification_metadata v in
      let (back, b) = run_migrations_online X (downgrade C) v in
      let (late, l) = run_migrations_online X (upgrade C) c in
      (r ≡ ok tt)
      × ((u : String) → str_eq u "alembic_version" ≡ false → C.relation v u ≡ C.relation c u)
      × ((u : String) → C.relation v' u ≡ C.relation v u)
      × (back ≡ ok tt)
      × ((u : String) → str_eq u "alembic_version" ≡ false → C.relation b u ≡ C.relation d u)
      × ((e : Exception) × (late ≡ err e))
      × ((u : String) → str_eq u "alembic_version" ≡ false → C.relation l u ≡ C.relation c u)
unfolding notification_metadata
upgrade-Same C X R d free = (
  up.0,
  λ u ours. up.1 u ours ∙ sym (made.1 u),
  (C.create_all_old notification_metadata v _ (up.1 tablename refl)).1,
  down.0,
  λ u ours. down.1 u ours ∙ dropped-installed names free no_index u,
  (late.0, late.1.0),
  λ u ours. late.1.1 u ours ∙ sym (made.1 u),
)
  where
    names : Names
    names = C.relation d

    there : Names
    there = installed notification_metadata names

    up :
        Done C there
          (run_migrations_online X (upgrade C) d).0
          (run_migrations_online X (upgrade C) d).1
    up =
        (online-Done C X R (upgrade C) names there d (λ v at_v. upgrade-Done C v names at_v free)
          (λ u ours. refl)).at

    v : C.Db
    v = (run_migrations_online X (upgrade C) d).1

    c : C.Db
    c = (C.create_all notification_metadata d).1

    made :
        ((C.create_all notification_metadata d).0 ≡ ok tt)
        × ((u : String) → C.relation c u ≡ there u)
    made =
        C.create_all_new notification_metadata d refl free.table
          (free.unique, (free.worker, (free.channel, (free.event_type, tt))))

    down :
        Done C
          (dropped there)
          (run_migrations_online X (downgrade C) v).0
          (run_migrations_online X (downgrade C) v).1
    down =
        (online-Done C X R (downgrade C) there (dropped there) v
          (λ x at_x. downgrade-Done C x names at_x) up.1).at

    no_index : (u : String) (key : Key) → names u ≢ some (an_index "notifications" key)
    no_index u key stands =
        none≢some (sym free.table ∙ (C.index_table d u "notifications" key stands).1)

    late :
        (e : Exception) × Out C
          (err e)
          there
          (run_migrations_online X (upgrade C) c).0
          (run_migrations_online X (upgrade C) c).1
    late =
        (online-Raises C X R (upgrade C) there c
          (λ x at_x. (upgrade-refused C x _ (at_x tablename refl)).at) (λ u ours. made.1 u)).at
