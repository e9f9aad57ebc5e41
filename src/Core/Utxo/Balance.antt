-- ===== src/Core/Utxo/Balance.antt =====
-- The balances of an address: what it can spend now, and what still matures.
use zentra_chain.Prelude.{ℕ, ◌+◌, ◌≤◌, ◌≡◌, Bool, [], ◌∷◌, ◌&&◌, not, arith}
use zentra_chain.Prelude.Words.{u64_max}
use zentra_chain.Types.{Address, address_eq}
use zentra_chain.Core.Utxo.{
  UtxoEntry, Utxos, UtxoSet, is_mature, get_balance, get_spendable_balance,
}
use zentra_chain.Core.Utxo.Value.{value, held, fold_balance-held}

held-le-value : (p : UtxoEntry → Bool) (m : Utxos) → held p m ≤ value m
held-le-value p [] = omega arith
held-le-value p ((o, e) ∷ m) = ground (arith, held-le-value p m)

held_split :
    (p q : UtxoEntry → Bool) (m : Utxos)
    → held p m ≡ held (λ e. p e && q e) m + held (λ e. p e && not (q e)) m
held_split p q [] = omega arith
held_split p q ((o, e) ∷ m) = ground (arith, held_split p q m)

-- Where the set's value fits in a u64, an address's balance is its spendable balance at a height
-- and the amounts of its coinbase outputs that are immature there.
pub get_balance_split :
    (a : Address) (current : ℕ) (s : UtxoSet)
    → value s.utxos ≤ u64_max
    → get_balance a s
      ≡ get_spendable_balance a current s
        + held (λ e. address_eq e.address a && not (is_mature current e)) s.utxos
unfolding get_balance get_spendable_balance
get_balance_split a current s fits =
    let mine : UtxoEntry → Bool = λ e. address_eq e.address a in
    let mature : UtxoEntry → Bool = λ e. is_mature current e in
    let whole = held-le-value mine s.utxos in
    let split = held_split mine mature s.utxos in
    omega (
      arith,
      split,
      fold_balance-held mine 0 s.utxos (omega (arith, whole)),
      fold_balance-held (λ e. mine e && mature e) 0 s.utxos (omega (arith, whole, split)),
    )
