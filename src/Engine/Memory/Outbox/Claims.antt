-- ===== src/Engine/Memory/Outbox/Claims.antt =====
-- `ClaimOutbox` hands out exactly one eligible message, and finds one whenever there is one.
use parity_lab.Prelude.{
  String, true, false, List, [], ◌∷◌, Option, none, some, ◌==◌, string_eq, ◌||◌, ◌≡◌, refl, ◌≢◌,
  ◌∙◌, sym, ap, subst, arith, eq_iff, inl, inr, Bool-cases, Option-cases, beq_self,
}
use parity_lab.Prelude.Table.{Table, lookup, insert, get_or, has}
use parity_lab.Domain.{Time, Duration}
use parity_lab.Engine.Records.{OutboxMessage}
use parity_lab.Engine.Memory.{MemoryRepository, MemoryOutbox}
use parity_lab.Engine.Memory.Outbox.{
  contains_topic, insert_sorted, sorted_ids, claimable, locked_for, claim_from, claim_outbox,
}

contains_topic-insert_sorted :
    (s id : String) (ts : List String)
    → contains_topic (insert_sorted s ts) id ≡ (s == id || contains_topic ts id)
unfolding contains_topic insert_sorted
contains_topic-insert_sorted s id [] = ground arith
contains_topic-insert_sorted s id (t ∷ ts) = ground (arith, contains_topic-insert_sorted s id ts)

-- The ids that are visited are the keys of the map.
contains_topic-sorted_ids :
    (id : String) (m : Table String MemoryOutbox) → contains_topic (sorted_ids m) id ≡ has id m
unfolding contains_topic sorted_ids lookup
contains_topic-sorted_ids id [] = refl
contains_topic-sorted_ids id ((j, item) ∷ m) =
    ground (arith, contains_topic-insert_sorted j id (sorted_ids m), contains_topic-sorted_ids id m)

module _ (now : Time) (owner : String) (lease : Duration) (topics : List String) where
  -- the claim of the message `id`
  pub record Claims (id : String) (item : MemoryOutbox) (r : MemoryRepository)
      (out : Option OutboxMessage × MemoryRepository) : Type 0 where
    pub stored : lookup id r.outbox ≡ some item
    pub eligible : claimable topics lease now item ≡ true
    pub message : out.0 ≡ some (locked_for owner now item).message
    pub state : out.1 ≡ record r { outbox = insert id (locked_for owner now item) r.outbox }

  claim_from-hit :
      (id : String) (ids : List String) (r : MemoryRepository) (item : MemoryOutbox)
      → lookup id r.outbox ≡ some item
      → claimable topics lease now item ≡ true
      → claim_from now owner lease topics (id ∷ ids) r ≡ (
        some (locked_for owner now item).message,
        record r { outbox = insert id (locked_for owner now item) r.outbox },
      )
  unfolding claim_from
  claim_from-hit id ids r item e c = rw (e, get_or, c)

  claim_from-miss :
      (id : String) (ids : List String) (r : MemoryRepository) (item : MemoryOutbox)
      → lookup id r.outbox ≡ some item
      → claimable topics lease now item ≡ false
      → claim_from now owner lease topics (id ∷ ids) r ≡ claim_from now owner lease topics ids r
  unfolding claim_from
  claim_from-miss id ids r item e c = rw (e, get_or, c)

  abbrev ClaimsSome : MemoryRepository → Option OutboxMessage × MemoryRepository → Type 0
  ClaimsSome r out = (id : String) × (item : MemoryOutbox) × Claims id item r out

  claim_from-Claims :
      (ids : List String) (r : MemoryRepository) {msg : OutboxMessage}
      → ((id : String) → contains_topic ids id ≡ true → has id r.outbox ≡ true)
      → (claim_from now owner lease topics ids r).0 ≡ some msg
      → ClaimsSome r (claim_from now owner lease topics ids r)
  unfolding contains_topic
  claim_from-Claims [] r keys h = absurd (unfold claim_from in cc)
  claim_from-Claims (id ∷ ids) r {msg} keys h = elim (Option-cases (lookup id r.outbox)) [
    | inl missing ↦ absurd (missing_key (keys id (rw (beq_self id))) missing)
    | inr (item, found) ↦ elim (Bool-cases (claimable topics lease now item)) [
      | inl eligible ↦ (
        id,
        item,
        record {
          stored = found;
          eligible = eligible;
          message = ap (λ x. x.0) (claim_from-hit id ids r item found eligible);
          state = ap (λ x. x.1) (claim_from-hit id ids r item found eligible);
        },
      )
      | inr skipped ↦
          let same = claim_from-miss id ids r item found skipped in
          subst (ClaimsSome r) (sym same) (
            claim_from-Claims ids r (λ j listed. keys j (ground arith))
              (ap (λ x. x.0) (sym same) ∙ h))
    ]
  ]
    where
      missing_key : has id r.outbox ≡ true → lookup id r.outbox ≡ none → ⊥
      missing_key p q = ground arith

  claim_from-none :
      (ids : List String) (r : MemoryRepository)
      → (claim_from now owner lease topics ids r).0 ≡ none
      → (claim_from now owner lease topics ids r).1 ≡ r
  unfolding claim_from
  claim_from-none [] r h = refl
  claim_from-none (id ∷ ids) r h = ground (arith, claim_from-none ids r)

  claim_from-finds :
      (ids : List String) (r : MemoryRepository) (id : String) (item : MemoryOutbox)
      → contains_topic ids id ≡ true
      → lookup id r.outbox ≡ some item
      → claimable topics lease now item ≡ true
      → (claim_from now owner lease topics ids r).0 ≢ none
  unfolding claim_from contains_topic
  claim_from-finds [] r id item h e c = cc
  claim_from-finds (j ∷ ids) r id item h e c =
      ground (arith, claim_from-finds ids r id item, eq_iff j id)

  pub claim_outbox-Claims :
      (r : MemoryRepository) {msg : OutboxMessage}
      → (claim_outbox now owner lease topics r).0 ≡ some msg
      → (id : String) × (item : MemoryOutbox) × Claims id item r
          (claim_outbox now owner lease topics r)
  unfolding claim_outbox
  claim_outbox-Claims r h =
      claim_from-Claims (sorted_ids r.outbox) r
        (λ id listed. sym (contains_topic-sorted_ids id r.outbox) ∙ listed) h

  -- A claim finds none only if no stored message is eligible, and then it changes nothing.
  pub claim_outbox-none :
      (r : MemoryRepository)
      → (claim_outbox now owner lease topics r).0 ≡ none
      → ((claim_outbox now owner lease topics r).1 ≡ r)
        × ((id : String) (item : MemoryOutbox)
            → lookup id r.outbox ≡ some item
            → claimable topics lease now item ≡ false)
  unfolding claim_outbox
  claim_outbox-none r h = (
    claim_from-none (sorted_ids r.outbox) r h,
    λ id item e. elim (Bool-cases (claimable topics lease now item)) [
      | inr idle ↦ idle
      | inl eligible ↦ absurd (
          claim_from-finds (sorted_ids r.outbox) r id item
            (contains_topic-sorted_ids id r.outbox ∙ rw (e, has)) e eligible h)
    ],
  )
