-- ===== src/Migration/Online.antt =====
-- A script in the online mode: committed when it returns, rolled back when it raises.
use high_throughput_notifica.Prelude.{◌≡◌, sym, ◌∙◌}
use high_throughput_notifica.Exec.{Exec, Result, Exception, ok, err, ◌>>◌, try_finally, after_close}
use high_throughput_notifica.Exec.Ends.{Ends, bind-Ends, seq-Ends}
use high_throughput_notifica.Exec.Results.{ok≢err}
use high_throughput_notifica.Migration.Schema.{Names}
use high_throughput_notifica.Migration.Ddl.{Catalog}
use high_throughput_notifica.Migration.Env.{
  Runner, Reachable, do_run_migrations, run_async_migrations, run_migrations_online,
}
use high_throughput_notifica.Migration.Views.{View, Done, then-Done}

-- The end is a given one, with these names.
abbrev pub Out : (C : Catalog) → Result (Unit {0}) → Names → Result (Unit {0}) → C.Db → Type 0
Out C end names r d = (r ≡ end) × View C d names

module _ (C : Catalog) (X : Runner C) (R : Reachable X) (names : Names) where
  connect-Done : (d : C.Db) → View C d names → Ends (Done C names) X.connect d
  connect-Done d view = record {
    at = (R.connect_total d, λ u ours. X.connect_keeps d u ∙ view u ours);
  }

  configure-Done : (d : C.Db) → View C d names → Ends (Done C names) X.configure_connection d
  configure-Done d view = record {
    at = (R.configure_total d, λ u ours. X.configure_keeps d u ∙ view u ours);
  }

  dispose-Done : (d : C.Db) → View C d names → Ends (Done C names) X.dispose d
  dispose-Done d view = record {
    at = (R.dispose_total d, λ u ours. X.dispose_keeps d u ∙ view u ours);
  }

  close-Out :
      (end : Result (Unit {0})) (m : Exec C.Db (Unit {0})) (d : C.Db)
      → Ends (Out C end names) m d
      → Ends (Out C end names) (try_finally m X.close) d
  unfolding try_finally
  close-Out end m d body = record {
    at =
        let t = (m d).1 in
        closed (m d).0 (X.close t).0 (X.close t).1 (R.close_total t) body.at.0
          (λ u ours. X.close_keeps t u ∙ body.at.1 u ours);
  }
    where
      closed :
          (r c : Result (Unit {0})) (v : C.Db)
          → c ≡ ok tt
          → r ≡ end
          → View C v names
          → Out C end names (after_close r c v).0 (after_close r c v).1
      closed r (ok _) v returned is_end view = (is_end, view)
      closed r (err e) v returned is_end view = absurd (ok≢err returned)

module _ (C : Catalog) (X : Runner C) (R : Reachable X) (script : Exec C.Db (Unit {0}))
    (before : Names) where
  pub online-Done :
      (after : Names) (d : C.Db)
      → ((v : C.Db) → View C v before → Ends (Done C after) script v)
      → View C d before
      → Ends (Done C after) (run_migrations_online X script) d
  unfolding run_migrations_online run_async_migrations do_run_migrations
  online-Done after d runs view = then-Done C _ _ d _ _ (connect-Done C X R before d view) λ v at_v.
      then-Done C _ _ v _ _
        (close-Out C X R after (ok tt) _ v (
          then-Done C _ _ v _ _ (configure-Done C X R before v at_v) (λ x at_x.
            let (v, same, ends, leaves) = R.runs script x in
            let (returned, made) = (runs v (λ u ours. same u ours ∙ at_x u ours)).at in
            let (committed, kept) = X.committed (X.run_migrations script) x (ends ∙ returned) in
            record { at = (committed, λ u ours. kept u ∙ leaves u ours ∙ made u ours) })))
        (λ x at_x. dispose-Done C X R after x at_x)

  -- The engine is not disposed then.
  pub online-Raises :
      (d : C.Db)
      → ((v : C.Db) → View C v before → (e : Exception) × ((script v).0 ≡ err e))
      → View C d before
      → Ends (λ r v. (e : Exception) × Out C (err e) before r v) (run_migrations_online X script) d
  unfolding run_migrations_online run_async_migrations do_run_migrations
  online-Raises d raises view =
      seq-Ends {P = Done C before} _ _ d (connect-Done C X R before d view)
        (λ e v q. absurd (ok≢err q.0))
        λ _ v at_v.
          seq-Ends {P = λ r x. (e : Exception) × Out C (err e) before r x} _ _ v
            (after_raise v at_v.1) (λ e x q. q) λ _ x q. absurd (ok≢err (sym q.1.0))
    where
      after_raise :
          (v : C.Db)
          → View C v before
          → Ends
              (λ r x. (e : Exception) × Out C (err e) before r x)
              (try_finally
                (X.configure_connection >> X.in_transaction (X.run_migrations script))
                X.close)
              v
      after_raise v at_v =
          let c = (X.configure_connection v).1 in
          let at_c : View C c before = (configure-Done C X R before v at_v).at.1 in
          let (x, same, ends, leaves) = R.runs script c in
          let (e, raised) = raises x (λ u ours. same u ours ∙ at_c u ours) in
          let out =
            close-Out C X R before (err e)
              (X.configure_connection >> X.in_transaction (X.run_migrations script)) v
              (bind-Ends _ _ v (λ e x. absurd (ok≢err (sym x ∙ R.configure_total v)))
                λ _ _.
                  let (undone, kept) =
                    X.rolled_back (X.run_migrations script) c e (ends ∙ raised) in
                  record { at = (undone, λ u ours. kept u ∙ at_c u ours) }) in
          record { at = (e, out.at) }
