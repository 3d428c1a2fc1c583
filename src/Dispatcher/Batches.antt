-- ===== src/Dispatcher/Batches.antt =====
-- `batch_by_weight` of src/core/dispatcher.rs: what the batches hold.
use rust_bitvmx_bitcoin.Common.{
  All, All-append, Bool-cases, List, [], add64, ap, append-nil, append_assoc, arith, false,
  if◌then◌else◌, inl, inr, is_empty, leb, length, length-append, ltb, ltb→lt, not, refl, sym, true,
  ℕ, ◌&&◌, ◌++◌, ◌<◌, ◌∙◌, ◌∷◌, ◌≡◌, ◌≤◌, ◌⊎◌, nat_eq, string_eq,
}
use rust_bitvmx_bitcoin.Types.{CoordinatedTx, state_eq, outpoint_eq, news_eq}
use rust_bitvmx_bitcoin.Config.{DispatcherSettings}
use rust_bitvmx_bitcoin.Outside.{TxFunctions}
use rust_bitvmx_bitcoin.Dispatcher.{batch_by_weight, batch_loop}
use rust_bitvmx_bitcoin.Dispatcher.Packing.{
  IsPacked, IsPacked-close, IsPacked-grow, IsPacked-open, weigh, weigh-append,
}

abbrev pub concat : List (List CoordinatedTx) → List CoordinatedTx
concat [] = []
concat (l ∷ ls) = l ++ concat ls

concat-append : (ls ms : List (List CoordinatedTx)) → concat (ls ++ ms) ≡ concat ls ++ concat ms
concat-append [] ms = refl
concat-append (l ∷ ls) ms =
    ap (λ t. l ++ t) (concat-append ls ms) ∙ sym (append_assoc l (concat ls) (concat ms))

module _ (b : TxFunctions) (limit most : ℕ) where
  -- A batch within the weight limit, or of a single transaction.
  abbrev pub IsLight : List CoordinatedTx → Type 0
  IsLight l = (is_empty l ≡ false) × ((weigh b limit 0 l ≤ limit) ⊎ (length l ≡ 1))

  -- The loop's variables against the parents it was given: the batches, the current one and what is
  -- not taken yet are all of them, in order.
  abbrev Holds :
      List CoordinatedTx
      → List (List CoordinatedTx)
      → List CoordinatedTx
      → List CoordinatedTx
      → Type 0
  Holds all batches current rest =
      (concat batches ++ (current ++ rest) ≡ all)
      × (length batches ≤ most)
      × All IsLight batches
      × ((is_empty current ≡ true) ⊎ IsLight current)
      × IsPacked b limit (batches ++ current ∷ [])

  -- Something is left only when there is no room for another batch.
  abbrev pub IsSpent : List (List CoordinatedTx) → List CoordinatedTx → Type 0
  IsSpent batches rest = (is_empty rest ≡ true) ⊎ (length batches ≡ most)

  abbrev Ends : List CoordinatedTx → List (List CoordinatedTx) × List CoordinatedTx → Type 0
  Ends all r = (rest : List CoordinatedTx) × Holds all r.0 r.1 rest × IsSpent r.0 rest

  filled_fits :
      (l : List CoordinatedTx) → (is_empty l ≡ true) ⊎ IsLight l → is_empty l ≡ false → IsLight l
  filled_fits l (inl e) filled = cc
  filled_fits l (inr light) filled = light

  -- The current batch joins the batches.
  pushed :
      (all : List CoordinatedTx) (batches : List (List CoordinatedTx))
      (current rest : List CoordinatedTx)
      → Holds all batches current rest
      → is_empty current ≡ false
      → length batches < most
      → (concat (batches ++ current ∷ []) ++ rest ≡ all)
        × (length (batches ++ current ∷ []) ≤ most)
        × All IsLight (batches ++ current ∷ [])
  pushed all batches current rest h filled lt = (
    rw
        (
          concat-append batches (current ∷ []),
          append-nil current,
          append_assoc (concat batches) current rest,
        )
        (h.0),
    let size = length-append batches (current ∷ []) in omega (arith, size, lt),
    All-append IsLight batches (current ∷ []) h.2 (filled_fits current h.3 filled, tt),
  )

  flush-Holds :
      (all : List CoordinatedTx) (batches : List (List CoordinatedTx))
      (current : List CoordinatedTx) (p : CoordinatedTx) (ps : List CoordinatedTx)
      → Holds all batches current (p ∷ ps)
      → leb most (length batches) ≡ false
      → (not (is_empty current) && ltb limit (add64 (weigh b limit 0 current) (b.weight p.tx)))
        ≡ true
      → Holds all (batches ++ current ∷ []) (p ∷ []) ps
  flush-Holds all batches current p ps h room flush =
      let (e, size, light) = pushed all batches current (p ∷ ps) h (ground arith) (ground arith) in
      let over : limit < weigh b limit 0 (current ++ p ∷ []) =
        rw (weigh-append b limit 0 current p) (ground arith) in
      (
        e,
        size,
        light,
        inr (refl, inr refl),
        IsPacked-close b limit batches current (p ∷ []) h.4 over,
      )

  grown :
      (current : List CoordinatedTx) (p : CoordinatedTx)
      → (not (is_empty current) && ltb limit (add64 (weigh b limit 0 current) (b.weight p.tx)))
        ≡ false
      → IsLight (current ++ p ∷ [])
  grown [] p keep = (refl, inr refl)
  grown (c ∷ cs) p keep = (refl, inl (rw (weigh-append b limit 0 (c ∷ cs) p) (ground arith)))

  keep-Holds :
      (all : List CoordinatedTx) (batches : List (List CoordinatedTx))
      (current : List CoordinatedTx) (p : CoordinatedTx) (ps : List CoordinatedTx)
      → Holds all batches current (p ∷ ps)
      → (not (is_empty current) && ltb limit (add64 (weigh b limit 0 current) (b.weight p.tx)))
        ≡ false
      → Holds all batches (current ++ p ∷ []) ps
  keep-Holds all batches current p ps h keep = (
    rw (append_assoc current (p ∷ []) ps) (h.0),
    h.1,
    h.2,
    inr (grown current p keep),
    IsPacked-grow b limit batches current p h.4,
  )

  filled : {n : ℕ} → leb most n ≡ true → n ≤ most → n ≡ most
  filled full le = ground arith

  loop-Ends :
      (all ps : List CoordinatedTx) (batches : List (List CoordinatedTx))
      (current : List CoordinatedTx)
      → Holds all batches current ps
      → Ends all (batch_loop b limit most ps batches current (weigh b limit 0 current))
  unfolding batch_loop
  loop-Ends all [] batches current h = ([], h, inl refl)
  loop-Ends all (p ∷ ps) batches current h = elim (Bool-cases (leb most (length batches))) [
    | inl full ↦ rw (full, batch_loop) (p ∷ ps, h, inr (filled full h.1))
    | inr room ↦
        elim (Bool-cases
          (not (is_empty current) && ltb limit (add64 (weigh b limit 0 current) (b.weight p.tx)))) [
            | inl flush ↦
                rw (room, flush, batch_loop)
                  (loop-Ends all ps (batches ++ current ∷ []) (p ∷ [])
                    (flush-Holds all batches current p ps h room flush))
            | inr keep ↦
                rw (room, keep, batch_loop, ← weigh-append b limit 0 current p)
                  (loop-Ends all ps batches (current ++ p ∷ [])
                    (keep-Holds all batches current p ps h keep))
          ]
  ]

  -- What is returned: the batches, and the current one where there is room for it.
  abbrev Made : List CoordinatedTx → List (List CoordinatedTx) → Type 0
  Made all batches =
      ((rest : List CoordinatedTx) × (concat batches ++ rest ≡ all) × IsSpent batches rest)
      × (length batches ≤ most)
      × All IsLight batches
      × IsPacked b limit batches

  closed-Made :
      (all : List CoordinatedTx) (batches : List (List CoordinatedTx))
      (current rest : List CoordinatedTx)
      → Holds all batches current rest
      → IsSpent batches rest
      → Made all (
          if not (is_empty current) && ltb (length batches) most
          then batches ++ current ∷ []
          else batches)
  closed-Made all batches [] rest h spent =
      ((rest, h.0, spent), h.1, h.2, IsPacked-open b limit batches [] h.4)
  closed-Made all batches (c ∷ cs) rest h spent = elim (Bool-cases (ltb (length batches) most)) [
    | inr full ↦ rw full (
      ((c ∷ cs) ++ rest, h.0, inr (no_room full h.1)),
      h.1,
      h.2,
      IsPacked-open b limit batches (c ∷ cs) h.4,
    )
    | inl room ↦
        (let (e, size, light) = pushed all batches (c ∷ cs) rest h refl (ltb→lt _ _ room) in
          rw room ((rest, e, one_more rest spent (ltb→lt _ _ room)), size, light, h.4))
  ]
    where
      no_room : {n : ℕ} → ltb n most ≡ false → n ≤ most → n ≡ most
      no_room full le = ground arith

      one_more :
          (rest : List CoordinatedTx)
          → IsSpent batches rest
          → length batches < most
          → IsSpent (batches ++ (c ∷ cs) ∷ []) rest
      one_more rest (inl nothing) room = inl nothing
      one_more rest (inr all_used) room = absurd (both all_used room)
        where
          both : {n : ℕ} → n ≡ most → n < most → ⊥
          both e lt = omega arith

-- The batches are consecutive, starting with the first parent, none left out or taken twice: put
-- together and followed by what is left they are the parents in order, and parents are left only
-- when there are `max_batches` batches. There are never more, none is empty, each weighs at most
-- `max_tx_weight` (in the u64 sum that the code keeps) or is a single transaction, and with the first
-- of the next batch each would weigh more.
pub batches_hold :
    (b : TxFunctions) (s : DispatcherSettings) (ps : List CoordinatedTx) (max_batches : ℕ)
    → let batches = batch_by_weight b s ps max_batches in
      ((rest : List CoordinatedTx) × (concat batches ++ rest ≡ ps)
        × ((is_empty rest ≡ true) ⊎ (length batches ≡ max_batches)))
      × (length batches ≤ max_batches)
      × All (IsLight b s.max_tx_weight max_batches) batches
      × IsPacked b s.max_tx_weight batches
unfolding batch_by_weight
batches_hold b s ps most =
    let r = batch_loop b s.max_tx_weight most ps [] [] 0 in
    let (rest, h, spent) =
      loop-Ends b s.max_tx_weight most ps ps [] [] (refl, omega arith, tt, inl refl, tt) in
    closed-Made b s.max_tx_weight most ps r.0 r.1 rest h spent
