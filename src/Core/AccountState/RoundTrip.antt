-- ===== src/Core/AccountState/RoundTrip.antt =====
-- neo/Core/State/AccountState.py: what Serialize wrote, Deserialize reads.
use neo_python.Core.AccountState.{AccountState}
use neo_python.Core.AccountState.Serial.{
  deserialize_account, read_balance, read_vote, serialize_account, set_balances, write_balance,
  write_vote,
}
use neo_python.Core.Io.Hex.{unhexlify}
use neo_python.Core.Io.Streams.{maxsize}
use neo_python.Core.Io.Trips.{AllTrips, Trips-all, Trips-last, Trips-next}
use neo_python.Core.Io.Trips.Integers.{FitsInt, Trips-int}
use neo_python.Core.Io.Trips.Values.{
  Trips-bool, Trips-hash, Trips-length, Trips-raw, Trips-version, unhexlify_odd,
}
use neo_python.Prelude.{
  Bool-cases, List, [], ap, arith, bytes_eq, false, inl, inr, length, none, refl, some, sym, ℕ,
  ◌++◌, ◌∙◌, ◌∷◌, ◌≡◌, ◌≤◌, ◌⊎◌,
}
use neo_python.Prelude.Dict.{
  HasUniqueKeys, bytes_eq_refl, insert_key, lookup, lookup-insert_key, lookup-same_key,
}
use neo_python.Prelude.Int.{ℤ}
use mathlib.Core.List.{append-nil, append_assoc}

-- No key stands in both.
AreApart : List (List ℕ × ℤ) → List (List ℕ × ℤ) → Type 0
AreApart items d = (j : List ℕ) → (lookup j items ≡ none) ⊎ (lookup j d ≡ none)

insert_key_last :
    (k : List ℕ) (v : ℤ) (d : List (List ℕ × ℤ))
    → lookup k d ≡ none
    → insert_key k v d ≡ d ++ ((k, v) ∷ [])
unfolding lookup insert_key
insert_key_last k v [] h = refl
insert_key_last k v ((j, w) ∷ d) h =
    let other : bytes_eq j k ≡ false = ground (arith, h) in
    rw other (ap (λ t. (j, w) ∷ t) (insert_key_last k v d (ground (arith, h, other))))

AreApart-next :
    (k : List ℕ) (v : ℤ) (items d : List (List ℕ × ℤ))
    → lookup k items ≡ none
    → AreApart ((k, v) ∷ items) d
    → AreApart items (insert_key k v d)
unfolding AreApart lookup
AreApart-next k v items d one apart j = elim (Bool-cases (bytes_eq k j)) [
  | inl same ↦ inl (sym (lookup-same_key k j items same) ∙ one)
  | inr other ↦ elim (apart j) [
    | inl absent ↦ inl (ground (arith, absent, other))
    | inr absent ↦ inr (lookup-insert_key j k v d ∙ rw other absent)
  ]
]

-- Balances of distinct assets, set in their order, are these balances.
set_balances-append :
    (items d : List (List ℕ × ℤ))
    → HasUniqueKeys items
    → AreApart items d
    → set_balances items d ≡ d ++ items
unfolding set_balances HasUniqueKeys AreApart lookup
set_balances-append [] d u apart = sym (append-nil d)
set_balances-append ((k, v) ∷ items) d (one, u) apart =
    let absent : lookup k d ≡ none = elim (apart k) [
      | inl p ↦ absurd (ground (arith, p, bytes_eq_refl k))
      | inr p ↦ p
    ] in
    set_balances-append items (insert_key k v d) u (AreApart-next k v items d one apart)
    ∙ ap (λ t. t ++ items) (insert_key_last k v d absent)
    ∙ append_assoc d ((k, v) ∷ []) items

-- Votes are encoded points of 33 bytes.
abbrev pub AllPoints : List (List ℕ) → Type 0
AllPoints [] = Unit
AllPoints (vote ∷ votes) = (length vote ≡ 33) × AllPoints votes

-- Ids of 32 bytes, not all of them hexadecimal digits, and amounts of 64 bits.
abbrev pub AllAmounts : List (List ℕ × ℤ) → Type 0
AllAmounts [] = Unit
AllAmounts ((asset, v) ∷ items) =
    (length asset ≡ 32) × (unhexlify asset ≡ none) × FitsInt 8 v × AllAmounts items

votes-AllTrips : (votes : List (List ℕ)) → AllPoints votes → AllTrips write_vote read_vote votes
votes-AllTrips [] a = tt
votes-AllTrips (vote ∷ votes) (h, a) =
    (Trips-raw 33 vote h (unhexlify_odd 16 vote h), votes-AllTrips votes a)

balances-AllTrips :
    (items : List (List ℕ × ℤ)) → AllAmounts items → AllTrips write_balance read_balance items
balances-AllTrips [] a = tt
balances-AllTrips ((asset, v) ∷ items) (h, raw, room, a) = (
  Trips-next _ (Trips-hash 32 asset h raw)
      (Trips-last (λ amount. (asset, amount)) (Trips-int 8 v (omega arith) room)),
  balances-AllTrips items a,
)

-- An account that Serialize wrote, Deserialize reads, and nothing more of the stream. Condition:
-- the script hash has 20 bytes and the assets distinct ids of 32, none of these being hexadecimal
-- text; votes have 33 bytes, amounts fit 64 bits with a sign, and there are no more than
-- sys.maxsize votes or balances.
pub deserialize_account-serialize_account :
    (a : AccountState) (rest : List ℕ)
    → length a.script_hash ≡ 20
    → unhexlify a.script_hash ≡ none
    → length a.votes ≤ maxsize
    → AllPoints a.votes
    → length a.balances ≤ maxsize
    → AllAmounts a.balances
    → HasUniqueKeys a.balances
    → (bytes : List ℕ) × (serialize_account a ≡ some bytes)
      × (deserialize_account (bytes ++ rest) ≡ some (a, rest))
unfolding serialize_account deserialize_account AreApart lookup
deserialize_account-serialize_account a rest size raw few_votes points few_balances amounts unique =
    let trip = Trips-next _ Trips-version (
      Trips-next _ (Trips-hash 20 a.script_hash size raw) (
        Trips-next _ (Trips-bool a.is_frozen) (
          Trips-next _ (Trips-length (length a.votes) few_votes) (
            Trips-next _ (Trips-all write_vote read_vote a.votes (votes-AllTrips a.votes points)) (
              Trips-next _ (Trips-length (length a.balances) few_balances) (
                Trips-last (λ items. record a { balances = set_balances items [] })
                  (Trips-all write_balance read_balance a.balances
                    (balances-AllTrips a.balances amounts)))))))) in
    let same = set_balances-append a.balances [] unique (λ j. inr refl) in
    (
      trip.bytes,
      trip.wrote,
      trip.reads rest ∙ ap (λ d. some (record a { balances = d }, rest)) same,
    )
