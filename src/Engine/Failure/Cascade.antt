-- ===== src/Engine/Failure/Cascade.antt =====
-- `fail_and_cascade` of src/engines/common.rs comes to an end, and what it leaves behind.
use rust_bitvmx_bitcoin.Common.{
  All, All-map, Bool, Bool-cases, List, Option, Option-cases, [], arith, contains, false, filter,
  inl, inr, length, nat_eqb_iff, none, refl, some, subst, suc, sym, true, zero, ℕ, ◌&&◌, ◌<◌, ◌==◌,
  ◌||◌, ◌∙◌, ◌∷◌, ◌≡◌, ◌≤◌, nat_eq, string_eq,
}
use rust_bitvmx_bitcoin.Common.Maps.{lookup}
use rust_bitvmx_bitcoin.Types.{
  BlockHeight, CoordinatedTx, Result, Txid, ok, state_eq, outpoint_eq, news_eq,
}
use rust_bitvmx_bitcoin.Storage.Db.{Db}
use rust_bitvmx_bitcoin.Storage.Speedups.{get_speedups_ordered, resolve}
use rust_bitvmx_bitcoin.Storage.Pending.Queue.{All-listed}
use rust_bitvmx_bitcoin.Storage.Records.Transitions.{IsKeyed}
use rust_bitvmx_bitcoin.Engine.Failure.{cascade, depends_on, fail_and_cascade, is_to_dispatch}
use rust_bitvmx_bitcoin.Engine.Failure.Shrink.{
  Calms, OptionCalms, Shrinks, Shrinks-IsKeyed, Shrinks-refl, Shrinks-trans,
}
use rust_bitvmx_bitcoin.Engine.Failure.Settle.{
  after-Shrinks, after_settle, settle_failed_lem, waits,
}
use rust_bitvmx_bitcoin.World.{M, World, for_each, when}
use rust_bitvmx_bitcoin.Engine.Failure.Waiting.{
  length-waiting, met, others, others-Shrinks, others-le-waiting, snapshot, waiting, waiting-others,
  waiting_fit, waits-Shrinks,
}

-- What a call that fails `d` gives: no error, calmed records, and `d` not waiting any more.
abbrev Fails : CoordinatedTx → World → Result (Unit {0}) × World → Type 0
Fails d w r = (r.0 ≡ ok tt) × Shrinks w.db (r.1).db × (waits (lookup d.txid (r.1).db.txs) ≡ false)

-- What the loop gives: each of its records that depends on `tx` does not wait any more.
abbrev Loops : CoordinatedTx → List CoordinatedTx → World → Result (Unit {0}) × World → Type 0
Loops tx ds w r =
    (r.0 ≡ ok tt)
    × Shrinks w.db (r.1).db
    × All (λ d. depends_on tx d ≡ true → waits (lookup d.txid (r.1).db.txs) ≡ false) ds

module _ (n : ℕ) (tx : CoordinatedTx) (fail : CoordinatedTx → M (Unit {0}))
    (good : (d : CoordinatedTx) (w : World)
      → IsKeyed w.db.txs
      → others d.txid w.db w.db.speedup_list < n
      → Fails d w (fail d w)) where
  abbrev Fits : Db → CoordinatedTx → Type 0
  Fits db d = others d.txid db db.speedup_list < n

  Fits-Shrinks :
      (db db' : Db) (ds : List CoordinatedTx)
      → Shrinks db db'
      → All (Fits db) ds
      → All (Fits db') ds
  Fits-Shrinks db db' ds f = All-map (λ d h. fits d h) ds
    where
      fits : (d : CoordinatedTx) → Fits db d → Fits db' d
      fits d h = rw (f.0) (omega (arith, others-Shrinks d.txid db db' db.speedup_list f, h))

  abbrev each : CoordinatedTx → M (Unit {0})
  each d = when (depends_on tx d) (fail d)

  step_on :
      (d : CoordinatedTx) (ds : List CoordinatedTx) (w : World)
      → depends_on tx d ≡ true
      → (fail d w).0 ≡ ok tt
      → for_each (d ∷ ds) each w ≡ for_each ds each (fail d w).1
  step_on d ds w on e = rw (on, e) refl

  step_off :
      (d : CoordinatedTx) (ds : List CoordinatedTx) (w : World)
      → depends_on tx d ≡ false
      → for_each (d ∷ ds) each w ≡ for_each ds each w
  step_off d ds w off = rw off refl

  -- The loop over the snapshot.
  pub loop_Loops :
      (ds : List CoordinatedTx) (w : World)
      → IsKeyed w.db.txs
      → All (Fits w.db) ds
      → Loops tx ds w (for_each ds each w)
  loop_Loops [] w keyed fits = (refl, Shrinks-refl w.db, tt)
  loop_Loops (d ∷ ds) w keyed fits = elim (Bool-cases (depends_on tx d)) [
    | inl on ↦
        (let one = good d w keyed fits.0 in
          let w' = (fail d w).1 in
          let rest =
            loop_Loops ds w' (Shrinks-IsKeyed w.db w'.db one.1 keyed)
              (Fits-Shrinks w.db w'.db ds one.1 fits.1) in
          let end = (for_each ds each w').1 in
          subst (Loops tx (d ∷ ds) w) (sym (step_on d ds w on one.0)) (
            rest.0,
            Shrinks-trans w.db w'.db end.db one.1 rest.1,
            ((λ h. waits-Shrinks w'.db end.db rest.1 d.txid one.2), rest.2),
          ))
    | inr off ↦
        (let rest = loop_Loops ds w keyed fits.1 in
          subst (Loops tx (d ∷ ds) w) (sym (step_off d ds w off))
            (rest.0, rest.1, ((λ on. cc), rest.2)))
  ]

-- One level: the settling, then the loop over the snapshot taken after it.
level_lem :
    (n : ℕ) (tx : CoordinatedTx) (h : BlockHeight) (fm : Bool) (w : World)
    → fail_and_cascade (suc n) tx h fm w
      ≡ for_each
          (snapshot (after_settle tx h fm w.db))
          (λ d. when (depends_on tx d) (fail_and_cascade n d h true))
          (record w { db = after_settle tx h fm w.db })
unfolding fail_and_cascade get_speedups_ordered
level_lem n tx h fm w = rw (settle_failed_lem tx h fm w) refl

-- The bound that the calls of the loop inherit.
room :
    (n : ℕ) (tx : CoordinatedTx) (h : BlockHeight) (fm : Bool) (db : Db)
    → IsKeyed db.txs
    → others tx.txid db db.speedup_list < suc n
    → waiting (after_settle tx h fm db) (after_settle tx h fm db).speedup_list ≤ n
room n tx h fm db keyed lt =
    let db' = after_settle tx h fm db in
    let after = after-Shrinks tx h fm db keyed in
    subst (λ l. waiting db' l ≤ n) (sym (after.0).0)
      (let a = waiting-others tx.txid db' db.speedup_list after.1 in
        let b = others-Shrinks tx.txid db db' db.speedup_list after.0 in omega (arith, a, b, lt))

abbrev Good : ℕ → BlockHeight → Type 0
Good n h =
    (d : CoordinatedTx) (fm : Bool) (w : World)
    → IsKeyed w.db.txs
    → others d.txid w.db w.db.speedup_list < n
    → Fails d w (fail_and_cascade n d h fm w)

level_Loops :
    (n : ℕ) (tx : CoordinatedTx) (h : BlockHeight) (fm : Bool) (w : World)
    → Good n h
    → IsKeyed w.db.txs
    → others tx.txid w.db w.db.speedup_list < suc n
    → Loops tx
        (snapshot (after_settle tx h fm w.db))
        (record w { db = after_settle tx h fm w.db })
        (fail_and_cascade (suc n) tx h fm w)
level_Loops n tx h fm w good keyed lt =
    let db' = after_settle tx h fm w.db in
    let w' : World = record w { db = db' } in
    let keyed' = Shrinks-IsKeyed w.db db' (after-Shrinks tx h fm w.db keyed).0 keyed in
    subst (Loops tx (snapshot db') w') (sym (level_lem n tx h fm w)) (
      loop_Loops n tx (λ d. fail_and_cascade n d h true) (λ d w. good d true w) (snapshot db') w'
        keyed'
        (waiting_fit n db' db'.speedup_list keyed' (room n tx h fm w.db keyed lt)
          (All-listed db'.speedup_list [] db'.speedup_list refl)))

-- `fail_and_cascade` with fuel for the speedups that wait.
fail_Fails : (n : ℕ) (h : BlockHeight) → Good n h
fail_Fails zero h tx fm w keyed lt = absurd (no_room lt)
  where
    no_room : {m : ℕ} → m < 0 → ⊥
    no_room h = omega arith
fail_Fails (suc n) h tx fm w keyed lt =
    let db' = after_settle tx h fm w.db in
    let after = after-Shrinks tx h fm w.db keyed in
    let end = (fail_and_cascade (suc n) tx h fm w).1 in
    let l = level_Loops n tx h fm w (fail_Fails n h) keyed lt in
    (l.0, Shrinks-trans w.db db' end.db after.0 l.1, waits-Shrinks db' end.db l.1 tx.txid after.1)

calm_back :
    (o : Option CoordinatedTx) (s : CoordinatedTx)
    → OptionCalms o (some s)
    → (t : CoordinatedTx) × (o ≡ some t) × Calms t s
calm_back none s c = absurd c
calm_back (some t) s c = (t, refl, c)

neither : (a b c : Bool) → (b ≡ true → a ≡ false) → (c ≡ true → a ≡ false) → (a && (b || c)) ≡ false
neither false b c f g = refl
neither true true c f g = cc (f refl)
neither true false true f g = cc (g refl)
neither true false false f g = refl

-- After the cascade a listed speedup that waits is not `tx`, and does not depend on it.
independent :
    (tx : CoordinatedTx) (db' db : Db) (id : Txid) (s : CoordinatedTx)
    → IsKeyed db'.txs
    → Shrinks db' db
    → waits (lookup tx.txid db.txs) ≡ false
    → All (λ d. depends_on tx d ≡ true → waits (lookup d.txid db.txs) ≡ false) (snapshot db')
    → contains db'.speedup_list id ≡ true
    → lookup id db.txs ≡ some s
    → (is_to_dispatch s && (s.txid == tx.txid || depends_on tx s)) ≡ false
independent tx db' db id s keyed f off all c e =
    let (t, was, calm) =
      calm_back (lookup id db'.txs) s (subst (OptionCalms (lookup id db'.txs)) e (f.1 id)) in
    let own = keyed id t was in
    let stored : waits (lookup id db.txs) ≡ is_to_dispatch s = rw e refl in
    let self : (s.txid == tx.txid) ≡ true → is_to_dispatch s ≡ false = λ q.
      sym stored
      ∙ subst (λ x. waits (lookup x db.txs) ≡ false)
          (sym ((nat_eqb_iff s.txid tx.txid).0 q) ∙ (calm.0 ∙ own)) off in
    let loop : depends_on tx s ≡ true → is_to_dispatch s ≡ false = λ dep.
      elim (Bool-cases (is_to_dispatch s)) [
        | inr idle ↦ idle
        | inl on ↦
            sym stored
            ∙ subst (λ x. waits (lookup x db.txs) ≡ false) own
                (met _ db' db'.speedup_list id t all c was (calm.1 on) (sym (calm.2 tx) ∙ dep))
      ] in
    neither (is_to_dispatch s) (s.txid == tx.txid) (depends_on tx s) self loop

independent-All :
    (tx : CoordinatedTx) (db' db : Db) (ids : List Txid)
    → IsKeyed db'.txs
    → Shrinks db' db
    → waits (lookup tx.txid db.txs) ≡ false
    → All (λ d. depends_on tx d ≡ true → waits (lookup d.txid db.txs) ≡ false) (snapshot db')
    → All (λ id. contains db'.speedup_list id ≡ true) ids
    → All
        (λ s. (is_to_dispatch s && (s.txid == tx.txid || depends_on tx s)) ≡ false)
        (resolve db ids)
independent-All tx db' db [] keyed f off all c = tt
independent-All tx db' db (id ∷ ids) keyed f off all c =
    let rest = independent-All tx db' db ids keyed f off all c.1 in
    elim (Option-cases (lookup id db.txs)) [
      | inl e ↦ rw (e, resolve) rest
      | inr (s, e) ↦ rw (e, resolve) (independent tx db' db id s keyed f off all c.0 e, rest)
    ]

-- On a store whose records stand under their own txids, failing a transaction always comes to an end
-- without an error, the fuel given by `cascade` being enough, and afterwards no listed speedup that
-- waits for dispatch is the failed transaction, or has it as its first funding input or as a parent.
-- No speedup is made to wait by it, and the list of speedups stays as it is.
pub cascade_complete :
    (tx : CoordinatedTx) (h : BlockHeight) (funding_missing : Bool) (w : World)
    → IsKeyed w.db.txs
    → let r = cascade tx h funding_missing w in
      (r.0 ≡ ok tt)
      × Shrinks w.db (r.1).db
      × All
          (λ s. (is_to_dispatch s && (s.txid == tx.txid || depends_on tx s)) ≡ false)
          (get_speedups_ordered (r.1).db)
unfolding cascade get_speedups_ordered
cascade_complete tx h fm w keyed =
    let n = length (filter is_to_dispatch (resolve w.db w.db.speedup_list)) in
    let few = others-le-waiting tx.txid w.db w.db.speedup_list in
    let same = length-waiting w.db w.db.speedup_list in
    let lt : others tx.txid w.db w.db.speedup_list < suc n = omega (arith, few, same) in
    let ends = fail_Fails (suc n) h tx fm w keyed lt in
    let level = level_Loops n tx h fm w (fail_Fails n h) keyed lt in
    let db' = after_settle tx h fm w.db in
    let end = (fail_and_cascade (suc n) tx h fm w).1 in
    (
      ends.0,
      ends.1,
      subst
          (λ l.
            All (λ s. (is_to_dispatch s && (s.txid == tx.txid || depends_on tx s)) ≡ false)
              (resolve end.db l))
          (sym (level.1).0)
          (independent-All tx db' end.db db'.speedup_list
            (Shrinks-IsKeyed w.db db' (after-Shrinks tx h fm w.db keyed).0 keyed) level.1 ends.2
            level.2 (All-listed db'.speedup_list [] db'.speedup_list refl)),
    )
