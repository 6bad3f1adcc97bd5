-- ===== src/Sorter/Order.antt =====
-- The order that requests are sorted by, requests/sorter.go.
use boruta.Common.{
  ◌≡◌, Bool, true, false, arith, text_lt_irrefl, text_lt_total, text_lt_trans, nat_eq,
}
use boruta.Types.{ReqState, ReqInfo, req_state_eq, req_state_name}
use boruta.Lists.{SortOrder, ascending, descending}
use boruta.Sorter.{ReqItem, by_id, by_priority, by_deadline, by_valid_after, by_state, less_request}

-- By each item and in each order, no request is sorted before itself.
pub less_request_irrefl :
    (item : ReqItem) (order : SortOrder) (a : ReqInfo) → less_request item order a a ≡ false
unfolding less_request
less_request_irrefl by_id ascending a = ground arith
less_request_irrefl by_id descending a = ground arith
less_request_irrefl by_priority ascending a = ground arith
less_request_irrefl by_priority descending a = ground arith
less_request_irrefl by_deadline ascending a = ground arith
less_request_irrefl by_deadline descending a = ground arith
less_request_irrefl by_valid_after ascending a = ground arith
less_request_irrefl by_valid_after descending a = ground arith
less_request_irrefl by_state ascending a = ground arith
less_request_irrefl by_state descending a = ground arith

-- By each item and in each order, what requests are sorted by is transitive.
pub less_request_trans :
    (item : ReqItem) (order : SortOrder) (a b c : ReqInfo)
    → less_request item order a b ≡ true
    → less_request item order b c ≡ true
    → less_request item order a c ≡ true
unfolding less_request
less_request_trans by_id ascending a b c h k = ground arith
less_request_trans by_id descending a b c h k = ground arith
less_request_trans by_priority ascending a b c h k = ground arith
less_request_trans by_priority descending a b c h k = ground arith
less_request_trans by_deadline ascending a b c h k = ground arith
less_request_trans by_deadline descending a b c h k = ground arith
less_request_trans by_valid_after ascending a b c h k = ground arith
less_request_trans by_valid_after descending a b c h k = ground arith
less_request_trans by_state ascending a b c h k = ground (
  arith,
  text_lt_trans (req_state_name a.state) (req_state_name b.state) (req_state_name c.state),
  text_lt_irrefl (req_state_name a.state),
  req_state_eq.beq_iff a.state b.state,
  req_state_eq.beq_iff b.state c.state,
  req_state_eq.beq_iff a.state c.state,
)
less_request_trans by_state descending a b c h k = ground (
  arith,
  text_lt_trans (req_state_name c.state) (req_state_name b.state) (req_state_name a.state),
  text_lt_irrefl (req_state_name a.state),
  req_state_eq.beq_iff a.state b.state,
  req_state_eq.beq_iff b.state c.state,
  req_state_eq.beq_iff a.state c.state,
)

-- A strict order, in which requests with different IDs are never left as equals.
pub record IsStrict (less : ReqInfo → ReqInfo → Bool) : Type 0 where
  pub irrefl : (a : ReqInfo) → less a a ≡ false
  pub trans : (a b c : ReqInfo) → less a b ≡ true → less b c ≡ true → less a c ≡ true
  pub total : (a b : ReqInfo) → less a b ≡ false → less b a ≡ false → a.id ≡ b.id

req_state_name_injective : (s t : ReqState) → req_state_name s ≡ req_state_name t → s ≡ t
unfolding req_state_name
req_state_name_injective s t h = ground arith

less_request_total :
    (item : ReqItem) (order : SortOrder) (a b : ReqInfo)
    → less_request item order a b ≡ false
    → less_request item order b a ≡ false
    → a.id ≡ b.id
unfolding less_request
less_request_total by_id ascending a b h k = ground arith
less_request_total by_id descending a b h k = ground arith
less_request_total by_priority ascending a b h k = ground arith
less_request_total by_priority descending a b h k = ground arith
less_request_total by_deadline ascending a b h k = ground arith
less_request_total by_deadline descending a b h k = ground arith
less_request_total by_valid_after ascending a b h k = ground arith
less_request_total by_valid_after descending a b h k = ground arith
less_request_total by_state ascending a b h k = ground (
  arith,
  text_lt_total (req_state_name a.state) (req_state_name b.state),
  req_state_name_injective a.state b.state,
  req_state_eq.beq_iff a.state b.state,
  req_state_eq.beq_iff b.state a.state,
)
less_request_total by_state descending a b h k = ground (
  arith,
  text_lt_total (req_state_name b.state) (req_state_name a.state),
  req_state_name_injective b.state a.state,
  req_state_eq.beq_iff a.state b.state,
  req_state_eq.beq_iff b.state a.state,
)

-- By each item and in each order, what requests are sorted by is a strict order: no request is
-- before itself, the order is transitive, and of two requests with different IDs one is before the
-- other.
pub less_request-IsStrict :
    (item : ReqItem) (order : SortOrder) → IsStrict (less_request item order)
less_request-IsStrict item order = record {
  irrefl = less_request_irrefl item order;
  trans = less_request_trans item order;
  total = less_request_total item order;
}
