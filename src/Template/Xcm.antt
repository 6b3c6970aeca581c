-- ===== src/Template/Xcm.antt =====
-- template/runtime/src/configs/xcm_config.rs: which messages from other chains the runtime executes.
use on_demand.Prelude.{
  ℕ, Option, ◌≡◌, ◌⊎◌, inl, inr, Bool, true, false, ◌&&◌, ◌||◌, List, [], ◌∷◌, ◌==◌, arith,
  Bool-cases,
}
use on_demand.Primitives.{ParaId}
use on_demand.Pallet.State.{AccountId}
use on_demand.Pallet.Weights.{Weight, IsLighter}

pub data BodyId : Type 0 where
  executive : BodyId
  defense : BodyId
  another_body : ℕ → BodyId

-- The network of an account, the `part` of a plurality, and the junctions that the code does not name, are numbers.
pub data Junction : Type 0 where
  parachain : ParaId → Junction
  plurality : BodyId → ℕ → Junction
  account_id32 : Option ℕ → AccountId → Junction
  another_junction : ℕ → Junction

pub record Location : Type 0 where
  pub parents : ℕ
  pub interior : List Junction

-- `RelayLocation`.
abbrev pub relay_location : Location
relay_location = record { parents = 1; interior = [] }

abbrev pub universal_location : ParaId → List Junction
universal_location para_id = parachain para_id ∷ []

abbrev pub is_executive : List Junction → Bool
is_executive (plurality executive _ ∷ []) = true
is_executive _ = false

abbrev pub is_empty : List Junction → Bool
is_empty [] = true
is_empty _ = false

-- `ParentOrParentsExecutivePlurality::contains`.
unfoldable pub contains : Location → Bool
contains location =
    location.parents == 1 && (is_empty location.interior || is_executive location.interior)

abbrev pub everything : Location → Bool
everything location = true

-- The relay chain itself, or its executive body.
abbrev pub IsParentOrExecutive : Location → Type 0
IsParentOrExecutive o =
    (o ≡ relay_location)
    ⊎ ((part : ℕ) × (o ≡ record { parents = 1; interior = plurality executive part ∷ [] }))

contains-IsParentOrExecutive :
    (parents : ℕ) (interior : List Junction)
    → contains (record { parents = parents; interior = interior }) ≡ true
    → IsParentOrExecutive (record { parents = parents; interior = interior })
unfolding contains
contains-IsParentOrExecutive parents [] e = inl (ground arith)
contains-IsParentOrExecutive parents (plurality executive part ∷ []) e = inr (part, ground arith)
contains-IsParentOrExecutive parents _ e = absurd (ground arith)

-- Whether a message from a location may be executed with a weight and a credit of weight: the result
-- of `ShouldExecute`, and of `DenyExecution` where it does not deny.
abbrev pub ShouldExecute : Type 0 → Type 0
ShouldExecute Instruction = Location → List Instruction → Weight → Weight → Bool

-- The barriers of the XCM builder, with what an answer of each means as documented. `pays` and
-- `is_unpaid` are what the two last look for in the message, `moves_reserve` what the first denies, and `Computes` leads from an origin and a
-- message over at most so many prefixing instructions to those that they stand for.
pub record Barriers (Instruction : Type 0) : Type 1 where
  pub strip_topic : List Instruction → List Instruction
  pub moves_reserve : List Instruction → Bool
  pub pays : List Instruction → Weight → Bool
  pub is_unpaid : List Instruction → Weight → Bool
  pub Computes :
      List Junction → ℕ → Location × List Instruction → Location × List Instruction → Type 0
  pub trailing_set_topic_as_id : ShouldExecute Instruction → ShouldExecute Instruction
  pub deny_then_try :
      ShouldExecute Instruction → ShouldExecute Instruction → ShouldExecute Instruction
  pub deny_reserve_transfer_to_relay_chain : ShouldExecute Instruction
  pub take_weight_credit : ShouldExecute Instruction
  pub with_computed_origin :
      ShouldExecute Instruction → List Junction → ℕ → ShouldExecute Instruction
  pub allow_top_level_paid_execution_from : (Location → Bool) → ShouldExecute Instruction
  pub allow_explicit_unpaid_execution_from : (Location → Bool) → ShouldExecute Instruction
  pub topic_stripped :
      (inner : ShouldExecute Instruction) (o : Location) (m : List Instruction) (w c : Weight)
      → trailing_set_topic_as_id inner o m w c ≡ true
      → inner o (strip_topic m) w c ≡ true
  pub not_denied :
      (deny allow : ShouldExecute Instruction) (o : Location) (m : List Instruction) (w c : Weight)
      → deny_then_try deny allow o m w c ≡ true
      → (deny o m w c ≡ true) × (allow o m w c ≡ true)
  pub reserve_kept :
      (o : Location) (m : List Instruction) (w c : Weight)
      → deny_reserve_transfer_to_relay_chain o m w c ≡ true
      → moves_reserve m ≡ false
  pub credit_taken :
      (o : Location) (m : List Instruction) (w c : Weight)
      → take_weight_credit o m w c ≡ true
      → IsLighter w c
  pub origin_computed :
      (inner : ShouldExecute Instruction) (u : List Junction) (n : ℕ) (o : Location)
      (m : List Instruction) (w c : Weight)
      → with_computed_origin inner u n o m w c ≡ true
      → (o' : Location) × (m' : List Instruction) × Computes u n (o, m) (o', m')
        × (inner o' m' w c ≡ true)
  pub paid :
      (p : Location → Bool) (o : Location) (m : List Instruction) (w c : Weight)
      → allow_top_level_paid_execution_from p o m w c ≡ true
      → pays m w ≡ true
  pub unpaid :
      (p : Location → Bool) (o : Location) (m : List Instruction) (w c : Weight)
      → allow_explicit_unpaid_execution_from p o m w c ≡ true
      → (p o ≡ true) × (is_unpaid m w ≡ true)

-- A pair of barriers passes what either of its parts passes.
abbrev pub either : {I : Type 0} → ShouldExecute I → ShouldExecute I → ShouldExecute I
either a b o m w c = a o m w c || b o m w c

module _ {Instruction : Type 0} (b : Barriers Instruction) (para_id : ParaId) where
  open b use {
    trailing_set_topic_as_id, deny_then_try, deny_reserve_transfer_to_relay_chain,
    take_weight_credit, with_computed_origin, allow_top_level_paid_execution_from,
    allow_explicit_unpaid_execution_from,
  }

  -- `Barrier`.
  unfoldable pub barrier : ShouldExecute Instruction
  barrier = trailing_set_topic_as_id (
      deny_then_try deny_reserve_transfer_to_relay_chain (
        either take_weight_credit (
          with_computed_origin
            (either (allow_top_level_paid_execution_from everything)
              (allow_explicit_unpaid_execution_from contains))
            (universal_location para_id) 8)))

  pays_or_free :
      (o : Location) (m : List Instruction) (w c : Weight)
      → either
          (allow_top_level_paid_execution_from everything)
          (allow_explicit_unpaid_execution_from contains)
          o
          m
          w
          c
        ≡ true
      → (b.pays m w ≡ true) ⊎ (IsParentOrExecutive o × (b.is_unpaid m w ≡ true))
  pays_or_free o m w c e =
      elim (Bool-cases (allow_top_level_paid_execution_from everything o m w c)) [
        | inl pays ↦ inl (b.paid everything o m w c pays)
        | inr free ↦
            let (from, asks) = b.unpaid contains o m w c (rw free at e) in
            inr (contains-IsParentOrExecutive o.parents o.interior from, asks)
      ]

  -- A message that passes the barrier moves no reserve to the relay chain, and is paid for by the
  -- credit of weight, or leads by at most eight prefixing instructions to a message that buys its
  -- execution, or to one that asks for free execution and stands for the relay chain or its executive
  -- body.
  pub barrier_lem :
      (o : Location) (m : List Instruction) (w c : Weight)
      → barrier o m w c ≡ true
      → (b.moves_reserve (b.strip_topic m) ≡ false)
        × (IsLighter w c
            ⊎ ((o' : Location) × (m' : List Instruction) × b.Computes
                  (universal_location para_id)
                  8
                  (o, b.strip_topic m)
                  (o', m')
                × ((b.pays m' w ≡ true) ⊎ (IsParentOrExecutive o' × (b.is_unpaid m' w ≡ true)))))
  unfolding barrier
  barrier_lem o m w c e =
      let (let_through, passed) =
        b.not_denied _ _ o (b.strip_topic m) w c (b.topic_stripped _ o m w c e) in
      let kept = b.reserve_kept o (b.strip_topic m) w c let_through in
      elim (Bool-cases (take_weight_credit o (b.strip_topic m) w c)) [
        | inl credit ↦ (kept, inl (b.credit_taken o (b.strip_topic m) w c credit))
        | inr spent ↦
            let (o', m', computed, inner) =
              b.origin_computed _ _ 8 o (b.strip_topic m) w c (rw spent at passed) in
            (kept, inr (o', m', computed, pays_or_free o' m' w c inner))
      ]
