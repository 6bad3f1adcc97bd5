-- ===== src/Lists.antt =====
-- lists.go: sort orders, directions, paginators and their text forms. `strings.ToLower` is the
-- standard library's.
use boruta.Common.{ℕ, Text, codes, text_eq, ◌==◌, if◌then◌else◌, ◌||◌}
use boruta.Types.{ReqId, WorkerUuid, Result, ok, err, wrong_sort_order, wrong_list_direction}
use boruta.Std.{Std}

pub data SortOrder : Type 0 where
  ascending descending : SortOrder

pub data ListDirection : Type 0 where
  forward backward : ListDirection

abbrev pub max_page_limit : ℕ
max_page_limit = 65535

pub record SortInfo : Type 0 where
  pub item : Text
  pub order : SortOrder

pub record ListInfo : Type 0 where
  pub total_items : ℕ
  pub remaining_items : ℕ

pub record RequestsPaginator : Type 0 where
  pub id : ReqId
  pub direction : ListDirection
  pub limit : ℕ

pub record WorkersPaginator : Type 0 where
  pub id : WorkerUuid
  pub direction : ListDirection
  pub limit : ℕ

-- String and MarshalText.
unfoldable pub sort_order_text : SortOrder → Text
sort_order_text ascending = codes "ascending"
sort_order_text descending = codes "descending"

unfoldable pub direction_text : ListDirection → Text
direction_text forward = codes "forward"
direction_text backward = codes "backward"

module _ ⦃std : Std⦄ where
  unfoldable pub unmarshal_sort_order : Text → Result SortOrder
  unfolding sort_order_text
  unmarshal_sort_order text =
      let t = std.to_lower text in
      if t == codes "" || t == sort_order_text ascending
      then ok ascending
      else (if t == sort_order_text descending then ok descending else err wrong_sort_order)

  unfoldable pub unmarshal_direction : Text → Result ListDirection
  unfolding direction_text
  unmarshal_direction text =
      let t = std.to_lower text in
      if t == codes "" || t == direction_text forward
      then ok forward
      else (if t == direction_text backward then ok backward else err wrong_list_direction)
