-- ===== src/Storage/Stored.antt =====
-- The records of src/core/storage.rs as a map with one entry for each txid, and what its prefix scan
-- returns.
use rust_bitvmx_bitcoin.Common.{
  All, Bool, IsUnique, List, [], any, arith, contains, false, not, refl, some, true, ◌&&◌, ◌==◌,
  ◌↔◌, ◌||◌, ◌∙◌, ◌∷◌, ◌≡◌, nat_eq, nat_eqb_iff, string_eq,
}
use rust_bitvmx_bitcoin.Common.Maps.{
  contains-keys, delete, insert, keys, lookup, lookup-delete, lookup-insert, values,
}
use rust_bitvmx_bitcoin.Types.{CoordinatedTx, Txid, state_eq, outpoint_eq, news_eq}
use rust_bitvmx_bitcoin.Storage.Db.{Scan}
use rust_bitvmx_bitcoin.Storage.Records.Transitions.{IsKeyed}
use rust_bitvmx_bitcoin.Storage.Evict.Exact.{IsStored, ScansAll}

keys-insert :
    (k j : Txid) (t : CoordinatedTx) (m : List (Txid × CoordinatedTx))
    → contains (keys (insert k t m)) j ≡ (k == j || contains (keys m) j)
keys-insert k j t m =
    ground (arith, contains-keys j (insert k t m), contains-keys j m, lookup-insert k j t m)

keys-delete :
    (k j : Txid) (m : List (Txid × CoordinatedTx))
    → contains (keys (delete k m)) j ≡ (not (k == j) && contains (keys m) j)
keys-delete k j m =
    ground (arith, contains-keys j (delete k m), contains-keys j m, lookup-delete k j m)

pub insert-IsStored :
    (t : CoordinatedTx) (m : List (Txid × CoordinatedTx))
    → IsStored m
    → IsStored (insert t.txid t m)
unfolding insert
insert-IsStored t [] st = (refl, refl, tt)
insert-IsStored t ((i, w) ∷ m) st = ground (
  arith,
  insert-IsStored t m st.2,
  keys-insert t.txid i t m,
  nat_eqb_iff i t.txid,
  nat_eqb_iff t.txid i,
)

pub delete-IsStored :
    (k : Txid) (m : List (Txid × CoordinatedTx)) → IsStored m → IsStored (delete k m)
unfolding delete
delete-IsStored k [] st = tt
delete-IsStored k ((i, w) ∷ m) st = ground (arith, delete-IsStored k m st.2, keys-delete k i m)

pub stored-IsKeyed : (m : List (Txid × CoordinatedTx)) → IsStored m → IsKeyed m
unfolding lookup
stored-IsKeyed [] st k t e = ground arith
stored-IsKeyed ((i, w) ∷ m) st k t e = ground (arith, stored-IsKeyed m st.2 k t, nat_eqb_iff i k)

-- What holds of every record found by its txid holds of all that are stored.
pub values-All :
    (P : CoordinatedTx → Type 0) (m : List (Txid × CoordinatedTx))
    → IsStored m
    → ((k : Txid) (t : CoordinatedTx) → lookup k m ≡ some t → P t)
    → All P (values m)
unfolding lookup
values-All P [] st h = tt
values-All P ((i, w) ∷ m) st h = (
  h i w (ground (arith, nat_eqb_iff i i)),
  values-All P m st.2 (λ k t e. h k t (ground (arith, contains-keys k m, nat_eqb_iff i k))),
)

-- A test that all elements pass.
any-All :
    {A : Type 0} (p : A → Bool) (l : List A)
    → All (λ x. p x ≡ true) l
    → any (λ x. not (p x)) l ≡ false
any-All p [] all = refl
any-All p (x ∷ l) all = ground (arith, any-All p l all.1)

All-any :
    {A : Type 0} (p : A → Bool) (l : List A)
    → any (λ x. not (p x)) l ≡ false
    → All (λ x. p x ≡ true) l
All-any p [] none_fails = tt
All-any p (x ∷ l) none_fails = (ground arith, All-any p l (ground arith))

pub scan-All :
    (scan : Scan) (p : CoordinatedTx → Bool) (l : List CoordinatedTx)
    → ScansAll scan
    → All (λ t. p t ≡ true) l
    → All (λ t. p t ≡ true) (scan l)
scan-All scan p l scans all = All-any p (scan l) (scans (λ t. not (p t)) l ∙ any-All p l all)

-- The test for a list without duplicates.
abbrev pub all_once : List Txid → Bool
all_once [] = true
all_once (x ∷ xs) = not (contains xs x) && all_once xs

pub all_once_iff : (l : List Txid) → (all_once l ≡ true) ↔ IsUnique l
all_once_iff [] = (λ e. tt, λ u. refl)
all_once_iff (x ∷ xs) = (
  λ e. (ground arith, (all_once_iff xs).0 (ground arith)),
  λ u. ground (arith, (all_once_iff xs).1 u.1),
)
