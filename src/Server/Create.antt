-- ===== src/Server/Create.antt =====
-- The loop that makes room, and what `get_or_create_application_instance` returns.
use asgire.Prelude.{
  subst, ℕ, zero, suc, ◌≤◌, ◌<◌, true, false, some, length, ◌≡◌, inl, inr, refl, ap, ◌∙◌, Eq, arith,
  Bool-cases,
}
use asgire.Prelude.Dict.{Dict, get, IsDict, length-remove}
use asgire.Prelude.Result.{ok}
use asgire.Prelude.Int.{pos}
use asgire.Server.{exceeds, Server, Details, Result, make_room, delete_oldest_application_instance}
use asgire.Server.Oldest.{without, instances-without, delete_oldest-DeletesOldest}

module _ {K : Type 0} ⦃e : Eq K⦄ where
  -- `P` is kept by every deletion of an instance that is there.
  abbrev pub KeptByDelete : (Server K → Type 0) → Type 0
  KeptByDelete P =
      (s : Server K) (k : K) (d : Details)
      → get k s.application_instances ≡ some d
      → P s
      → P (without s k d)

  pub length-without :
      (s : Server K) (k : K) (d : Details)
      → get k s.application_instances ≡ some d
      → suc (length (without s k d).application_instances) ≡ length s.application_instances
  length-without s k d g =
      ap (λ (l : Dict K Details). suc (length l)) (instances-without s k d)
      ∙ length-remove k d s.application_instances g

  pub record HasRoom (P : Server K → Type 0) (max : ℕ) (r : Result (Unit {0}) × Server K)
      : Type 0 where
    pub result : r.0 ≡ ok tt
    pub room : length r.1.application_instances ≤ max
    pub kept : P r.1

  pub make_room_stop :
      (fuel : ℕ) (s : Server K)
      → exceeds s.max_applications (length s.application_instances) ≡ false
      → make_room (suc fuel) s ≡ (ok tt, s)
  unfolding make_room
  make_room_stop fuel s h = ground arith

  pub make_room_go :
      (fuel : ℕ) (s s' : Server K)
      → exceeds s.max_applications (length s.application_instances) ≡ true
      → delete_oldest_application_instance s ≡ (ok tt, s')
      → make_room (suc fuel) s ≡ make_room fuel s'
  unfolding make_room
  make_room_go fuel s s' h d = ground arith

  exceeds_room :
      (s : Server K) (max : ℕ)
      → s.max_applications ≡ pos max
      → exceeds s.max_applications (length s.application_instances) ≡ false
      → length s.application_instances ≤ max
  exceeds_room s max q h =
      let g : exceeds (pos max) (length s.application_instances) ≡ false =
        subst (λ m. exceeds m (length s.application_instances) ≡ false) q h in
      ground arith

  exceeds_some :
      (s : Server K) (max : ℕ)
      → s.max_applications ≡ pos max
      → exceeds s.max_applications (length s.application_instances) ≡ true
      → 0 < length s.application_instances
  exceeds_some s max q h =
      let g : exceeds (pos max) (length s.application_instances) ≡ true =
        subst (λ m. exceeds m (length s.application_instances) ≡ true) q h in
      ground arith

  -- Fuel for one round more than there are instances is enough: the loop ends, without an error,
  -- with at most `max_applications` instances, if that is not negative.
  pub make_room-HasRoom :
      (P : Server K → Type 0) (max : ℕ)
      → ((s : Server K) → P s → IsDict s.application_instances × (s.max_applications ≡ pos max))
      → KeptByDelete P
      → (fuel : ℕ) (s : Server K) → length s.application_instances < fuel
      → P s
      → HasRoom P max (make_room fuel s)
  make_room-HasRoom P max sound keep zero s h p = absurd (omega arith)
  make_room-HasRoom P max sound keep (suc fuel) s h p =
      elim (Bool-cases (exceeds s.max_applications (length s.application_instances))) [
        | inr fits ↦
            rw (make_room_stop fuel s fits)
              (record { result = refl; room = exceeds_room s max (sound s p).1 fits; kept = p })
        | inl over ↦
            let o =
              delete_oldest-DeletesOldest s (sound s p).0 (exceeds_some s max (sound s p).1 over) in
            let s' = without s o.oldest.key o.oldest.details in
            rw (make_room_go fuel s s' over o.result) (
              make_room-HasRoom P max sound keep fuel s'
                (omega (arith, length-without s o.oldest.key o.oldest.details o.there))
                (keep s o.oldest.key o.oldest.details o.there p))
      ]
