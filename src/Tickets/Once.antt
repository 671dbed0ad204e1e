-- ===== src/Tickets/Once.antt =====
-- One-time use and the capacity of the tickets of src/boveda/auth.py.
use text.Mathlib.TextPositions.{eq_refl}
use boveda_pyme.Prelude.{
  ℕ, ◌+◌, ◌≤◌, String, ◌≡◌, refl, sym, ap, inl, inr, false, not, none, some, List, [], ◌∷◌, arith,
  ltb, leb, Bool-cases, length, select, first_such, ok-injective, >>=-eq-ok, ok, err,
}
use boveda_pyme.Tickets.{
  Ticket, TicketStore, unknown_ticket, has_ticket_id, purge_front, evict, put_ticket, create_ticket,
  consume_ticket,
}

module _ {A : Type 0} where
  put_ticket-first :
      (t : Ticket A) (ts : List (Ticket A))
      → first_such (has_ticket_id t.id) (put_ticket t ts) ≡ some t
  unfolding put_ticket
  put_ticket-first t [] = let same = eq_refl t.id in ground arith
  put_ticket-first t (u ∷ us) =
      let same = eq_refl t.id in let rest = put_ticket-first t us in ground arith

  removed-first :
      (i : String) (ts : List (Ticket A))
      → first_such (has_ticket_id i) (select (λ t. not (has_ticket_id i t)) ts) ≡ none
  removed-first i [] = refl
  removed-first i (t ∷ ts) = let rest = removed-first i ts in ground arith

  -- A ticket that was created and has not expired is redeemed for its claims, and only once.
  pub consume_ticket-create_ticket :
      (i : String) (claims : A) (ttl start now later again : ℕ) (store : TicketStore A)
      {store' : TicketStore A}
      → create_ticket i claims ttl start now store ≡ ok store'
      → later ≤ start + ttl
      → let (first, left) = consume_ticket later i store' in
        (first ≡ ok claims) × ((consume_ticket again i left).0 ≡ err unknown_ticket)
  unfolding create_ticket consume_ticket
  consume_ticket-create_ticket i claims ttl start now later again store {store'} h t =
      let (kept, evicted, made) =
        >>=-eq-ok (evict store.max_capacity (purge_front now store.tickets)) _ h in
      let same : _ ≡ store'.tickets = ap (λ s. s.tickets) (ok-injective made) in
      let fresh : ltb (start + ttl) later ≡ false = ground arith in
      (
        rw
            (
              sym same,
              put_ticket-first (record { id = i; claims = claims; expires_at = start + ttl }) kept,
              fresh,
            )
            refl,
        rw (removed-first i store'.tickets) refl,
      )

  length-purge_front : (now : ℕ) (ts : List (Ticket A)) → length (purge_front now ts) ≤ length ts
  unfolding purge_front
  length-purge_front now [] = omega arith
  length-purge_front now (t ∷ ts) = let rest = length-purge_front now ts in ground arith

  length-put_ticket :
      (t : Ticket A) (ts : List (Ticket A)) → length (put_ticket t ts) ≤ length ts + 1
  unfolding put_ticket
  length-put_ticket t [] = omega arith
  length-put_ticket t (u ∷ us) = let rest = length-put_ticket t us in ground arith

  evict-room :
      (n : ℕ) (ts : List (Ticket A))
      → 1 ≤ n
      → length ts ≤ n
      → (kept : List (Ticket A)) × (evict n ts ≡ ok kept) × (length kept + 1 ≤ n)
  unfolding evict
  evict-room n [] p h = ([], ground arith, omega arith)
  evict-room n (t ∷ ts) p h = elim (Bool-cases (leb n (length (t ∷ ts)))) [
    | inl e ↦ (ts, rw e refl, omega arith)
    | inr e ↦ (t ∷ ts, rw e refl, ground arith)
  ]

  -- Provided that the capacity is at least one, a store within its capacity takes every ticket and
  -- stays within it.
  pub create_ticket-capacity :
      (i : String) (claims : A) (ttl start now : ℕ) (store : TicketStore A)
      → 1 ≤ store.max_capacity
      → length store.tickets ≤ store.max_capacity
      → (store' : TicketStore A) × (create_ticket i claims ttl start now store ≡ ok store')
        × (length store'.tickets ≤ store'.max_capacity)
  unfolding create_ticket
  create_ticket-capacity i claims ttl start now store p h =
      let ts = purge_front now store.tickets in
      let (kept, evicted, room) =
        evict-room store.max_capacity ts p
          (omega (arith, h, length-purge_front now store.tickets)) in
      let t : Ticket A = record { id = i; claims = claims; expires_at = start + ttl } in
      (
        record store { tickets = put_ticket t kept },
        rw evicted refl,
        omega (arith, length-put_ticket t kept, room),
      )
