-- ===== src/Finance/Vault/Backing.antt =====
-- vault.rs: the zUSD minted and burned against the deposits that were minted.
use zentra_chain.Prelude.{
  bytes_eq, bytes_eq_iff, ℕ, ◌-◌, ◌%◌, ◌≤◌, ◌≡◌, refl, true, false, not, Option, none, some, List,
  [], ◌∷◌, ◌++◌, map, ltb, ◌==◌, length, get_elem?, set, any, sum_by, sum_by-set, sum_by-append,
  map-set, ok, ok_or, >>=-eq-ok, fail_if-ok, ZentraError, if◌then◌else◌, arith, Option-cases, inl,
  inr,
}
use zentra_chain.Prelude.Words.{
  u128_max, saturating_add, saturating_add-le, saturating_add-ge, saturating_add-le-max,
}
use zentra_chain.Finance.Pol.{
  ProtocolOwnedLiquidity, IngestResult, process_cross_chain_ingest-total,
}
use zentra_chain.Finance.Tss.{Ed25519}
use zentra_chain.Finance.Vault.{
  IngestStatus, IngestRequest, MintResult, OmniVault, status_eq, submit_ingest, validate_ingest,
  mint_zusd, burn_zusd, book,
}

-- What a request's deposit backs: nothing until it is minted.
abbrev pub backs : IngestRequest → ℕ
backs r = if status_eq r.status IngestStatus.minted then r.stablecoin_amount else 0

abbrev Absent : List ℕ → List (List ℕ) → Type 0
Absent h [] = Unit
Absent h (x ∷ xs) = (bytes_eq x h ≡ false) × Absent h xs

-- No two requests have one external transaction hash.
abbrev pub IsDistinct : List (List ℕ) → Type 0
IsDistinct [] = Unit
IsDistinct (x ∷ xs) = Absent x xs × IsDistinct xs

pub record IsBacked (v : OmniVault) : Type 0 where
  pub backed : v.total_zusd_minted ≤ sum_by backs v.pending_ingests
  pub solvent : v.total_zusd_burned ≤ v.total_zusd_minted
  pub bounded : v.total_zusd_minted ≤ u128_max
  pub distinct : IsDistinct (map (λ r. r.external_tx_hash) v.pending_ingests)

Absent-append :
    (h : List ℕ) (xs : List IngestRequest) (r : IngestRequest)
    → Absent h (map (λ x. x.external_tx_hash) xs)
    → bytes_eq r.external_tx_hash h ≡ false
    → Absent h (map (λ x. x.external_tx_hash) (xs ++ r ∷ []))
Absent-append h [] r a other = (other, tt)
Absent-append h (x ∷ xs) r a other = (a.0, Absent-append h xs r a.1 other)

-- A new hash at the end keeps the hashes distinct.
IsDistinct-append :
    (xs : List IngestRequest) (r : IngestRequest)
    → any (λ x. bytes_eq x.external_tx_hash r.external_tx_hash) xs ≡ false
    → IsDistinct (map (λ x. x.external_tx_hash) xs)
    → IsDistinct (map (λ x. x.external_tx_hash) (xs ++ r ∷ []))
IsDistinct-append [] r fresh d = (tt, tt)
IsDistinct-append (x ∷ xs) r fresh d =
    let other : bytes_eq x.external_tx_hash r.external_tx_hash ≡ false = ground (arith, fresh) in
    let later : any (λ y. bytes_eq y.external_tx_hash r.external_tx_hash) xs ≡ false =
      ground (arith, fresh) in
    let turned : bytes_eq r.external_tx_hash x.external_tx_hash ≡ false = ground (
      arith,
      other,
      bytes_eq_iff x.external_tx_hash r.external_tx_hash,
      bytes_eq_iff r.external_tx_hash x.external_tx_hash,
    ) in
    (Absent-append x.external_tx_hash xs r d.0 turned, IsDistinct-append xs r later d.1)

pub submit_ingest-IsBacked :
    (r : IngestRequest) (v v' : OmniVault) → submit_ingest r v ≡ ok v' → IsBacked v → IsBacked v'
unfolding submit_ingest
submit_ingest-IsBacked r v v' h b =
    let (nonzero, h1) =
      fail_if-ok (r.stablecoin_amount == 0) ZentraError.transaction_validation _ h in
    let (fresh, h2) =
      fail_if-ok (any (λ x. bytes_eq x.external_tx_hash r.external_tx_hash) v.pending_ingests)
        ZentraError.transaction_validation _ h1 in
    let same : v' ≡ record v { pending_ingests = v.pending_ingests ++ r ∷ [] } = cc h2 in
    rw same (record {
      backed = omega (arith, b.backed, sum_by-append backs v.pending_ingests (r ∷ []));
      solvent = b.solvent;
      bounded = b.bounded;
      distinct = IsDistinct-append v.pending_ingests r fresh b.distinct;
    })

-- A new status keeps the hashes, and with them their distinctness.
IsDistinct-set :
    (xs : List IngestRequest) (i : ℕ) (r : IngestRequest) (s : IngestStatus)
    → get_elem? xs i ≡ some r
    → IsDistinct (map (λ x. x.external_tx_hash) xs)
    → IsDistinct (map (λ x. x.external_tx_hash) (set xs i (record r { status = s })))
IsDistinct-set xs i r s h d =
    rw (map-set (λ x. x.external_tx_hash) xs i r (record r { status = s }) h refl) d

pub ok_or-some : {E A : Type 0} (o : Option A) (e : E) {a : A} → ok_or o e ≡ ok a → o ≡ some a
ok_or-some none e h = cc
ok_or-some (some x) e h = cc

pub validate_ingest-IsBacked :
    (e : Ed25519) (index : ℕ) (sigs : List (ℕ × List ℕ)) (v v' : OmniVault)
    → validate_ingest e index sigs v ≡ ok v'
    → IsBacked v
    → IsBacked v'
unfolding validate_ingest
validate_ingest-IsBacked e index sigs v v' h b =
    let (r, found, h1) =
      >>=-eq-ok (ok_or (get_elem? v.pending_ingests index) ZentraError.transaction_validation) _
        h in
    let at_index =
      ok_or-some (get_elem? v.pending_ingests index) ZentraError.transaction_validation found in
    let (is_pending, h2) =
      fail_if-ok (not (status_eq r.status IngestStatus.pending)) ZentraError.transaction_validation
        _ h1 in
    let (enough, h3) =
      fail_if-ok (ltb (length sigs % 65_536) v.tss.threshold) ZentraError.tss_error _ h2 in
    let r' : IngestRequest = record r { status = IngestStatus.validated } in
    let same : v' ≡ record v { pending_ingests = set v.pending_ingests index r' } =
      ground (arith, h3) in
    let unbacked : backs r ≡ 0 = ground (arith, is_pending) in
    rw same (record {
      backed =
          omega (arith, b.backed, unbacked, sum_by-set backs v.pending_ingests index r r' at_index);
      solvent = b.solvent;
      bounded = b.bounded;
      distinct =
          IsDistinct-set v.pending_ingests index r IngestStatus.validated at_index b.distinct;
    })

-- The booking of a validated request adds no more than its deposit backs.
book-IsBacked :
    (index : ℕ) (r : IngestRequest) (v : OmniVault) (res : IngestResult)
    (pol : ProtocolOwnedLiquidity)
    → get_elem? v.pending_ingests index ≡ some r
    → status_eq r.status IngestStatus.validated ≡ true
    → res.net_amount ≤ r.stablecoin_amount
    → IsBacked v
    → IsBacked (book index r v res pol).1
book-IsBacked index r v res pol at_index ready small b =
    let r' : IngestRequest = record r { status = IngestStatus.minted } in
    let unbacked : backs r ≡ 0 = ground (arith, ready) in
    record {
      backed = omega (
        arith,
        b.backed,
        unbacked,
        small,
        saturating_add-le u128_max v.total_zusd_minted res.net_amount,
        sum_by-set backs v.pending_ingests index r r' at_index,
      );
      solvent = omega (
        arith,
        b.solvent,
        saturating_add-ge u128_max v.total_zusd_minted res.net_amount b.bounded,
      );
      bounded = saturating_add-le-max u128_max v.total_zusd_minted res.net_amount;
      distinct = IsDistinct-set v.pending_ingests index r IngestStatus.minted at_index b.distinct;
    }

pub mint_zusd-IsBacked :
    (index : ℕ) (m : MintResult) (v v' : OmniVault)
    → mint_zusd index v ≡ some (ok (m, v'))
    → IsBacked v
    → IsBacked v'
unfolding mint_zusd
mint_zusd-IsBacked index m v v' h b = elim (Option-cases (get_elem? v.pending_ingests index)) [
  | inl out ↦ absurd (ground (arith, out))
  | inr (r, at_index) ↦
      let (res, pol, ran, small) = process_cross_chain_ingest-total r.stablecoin_amount v.pol in
      let ready : status_eq r.status IngestStatus.validated ≡ true = ground (arith, at_index) in
      let same : v' ≡ (book index r v res pol).1 = ground (arith, at_index, ran, ready) in
      rw same (book-IsBacked index r v res pol at_index ready small b)
]

pub burn_zusd-IsBacked :
    (amount : ℕ) (v v' : OmniVault) → burn_zusd amount v ≡ ok v' → IsBacked v → IsBacked v'
unfolding burn_zusd
burn_zusd-IsBacked amount v v' h b =
    let (nonzero, h1) = fail_if-ok (amount == 0) ZentraError.transaction_validation _ h in
    let (covered, h2) =
      fail_if-ok (ltb (v.total_zusd_minted - v.total_zusd_burned) amount)
        ZentraError.transaction_validation _ h1 in
    let same : v'
        ≡ record v { total_zusd_burned = saturating_add u128_max v.total_zusd_burned amount } =
      cc h2 in
    rw same (record {
      backed = b.backed;
      solvent =
          ground (arith, covered, saturating_add-le u128_max v.total_zusd_burned amount, b.solvent);
      bounded = b.bounded;
      distinct = b.distinct;
    })
