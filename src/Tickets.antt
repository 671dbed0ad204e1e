-- ===== src/Tickets.antt =====
-- The ticket store of src/boveda/auth.py (TicketStore): the tickets in the order in which they came,
-- oldest first. Times are whole ticks of the monotonic clock. The ids come from
-- secrets.token_urlsafe and are arguments, and `A` is the type of the claims.
pub mod Once
use boveda_pyme.Prelude.{
  ℕ, ◌+◌, String, Bool, not, Option, none, some, List, [], ◌∷◌, str_eq, ltb, leb, if◌then◌else◌,
  length, select, first_such, ◌>>=◌, Result, ok, err,
}

pub record Ticket (A : Type 0) : Type 0 where
  pub id : String
  pub claims : A
  pub expires_at : ℕ

pub record TicketStore (A : Type 0) : Type 0 where
  pub max_capacity : ℕ
  pub tickets : List (Ticket A)

pub data TicketError : Type 0 where
  unknown_ticket expired_ticket key_error : TicketError

module _ {A : Type 0} where
  abbrev pub has_ticket_id : String → Ticket A → Bool
  has_ticket_id i t = str_eq t.id i

  -- The loop that drops expired tickets at the front.
  unfoldable pub purge_front : ℕ → List (Ticket A) → List (Ticket A)
  purge_front now [] = []
  purge_front now (t ∷ ts) =
      let rest = purge_front now ts in if ltb t.expires_at now then rest else t ∷ ts

  -- `popitem(last=False)` if the store is full.
  unfoldable pub evict : ℕ → List (Ticket A) → Result TicketError (List (Ticket A))
  evict max_capacity [] = if leb max_capacity 0 then err key_error else ok []
  evict max_capacity (t ∷ ts) = if leb max_capacity (length (t ∷ ts)) then ok ts else ok (t ∷ ts)

  -- `self._tickets[ticket_id] = …`: a key that is there keeps its place.
  unfoldable pub put_ticket : Ticket A → List (Ticket A) → List (Ticket A)
  put_ticket t [] = t ∷ []
  put_ticket t (u ∷ us) =
      let rest = put_ticket t us in if str_eq u.id t.id then t ∷ us else u ∷ rest

  -- `create_ticket`, at the two readings of the clock.
  unfoldable pub create_ticket :
      String → A → ℕ → ℕ → ℕ → TicketStore A → Result TicketError (TicketStore A)
  unfolding purge_front evict put_ticket
  create_ticket i claims ttl_seconds start now store = do
    kept ← evict store.max_capacity (purge_front now store.tickets)
    ok (record store {
      tickets =
          put_ticket (record { id = i; claims = claims; expires_at = start + ttl_seconds }) kept;
    })

  abbrev pub redeem : ℕ → Option (Ticket A) → Result TicketError A
  redeem now none = err unknown_ticket
  redeem now (some t) = if ltb t.expires_at now then err expired_ticket else ok t.claims

  -- `consume_ticket`: the ticket goes, whatever the answer.
  unfoldable pub consume_ticket : ℕ → String → TicketStore A → Result TicketError A × TicketStore A
  consume_ticket now i store = (
    redeem now (first_such (has_ticket_id i) store.tickets),
    record store { tickets = select (λ t. not (has_ticket_id i t)) store.tickets },
  )
