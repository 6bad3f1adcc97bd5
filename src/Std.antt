-- ===== src/Std.antt =====
-- What the program takes from Go's standard library, as an interface. It is a parameter of every
-- definition that uses it; the laws are what the packages' documentation promises.
use boruta.Common.{
  ◌≡◌, Bool, false, Option, List, [], ◌∷◌, Text, Perm, Mem, ltb, nat_beq, if◌then◌else◌,
}
use boruta.Types.{Time, ReqId, TcpAddr, ReqInfo, WorkerInfo}

-- requests/timesheapcontainer.go: the element of the heaps, and its order, which container/heap calls.
pub record RequestTime : Type 0 where
  pub at : Time
  pub req : ReqId

unfoldable pub request_time_less : RequestTime → RequestTime → Bool
request_time_less a b = if nat_beq a.at b.at then ltb a.req b.req else ltb a.at b.at

pub record Std : Type 0 where
  -- container/heap over `request_time_less`. A slice that is not empty is given as its element 0
  -- and the rest: Push leaves one such, and Pop takes one.
  pub heap_push : RequestTime → List RequestTime → RequestTime × List RequestTime
  pub heap_pop : RequestTime → List RequestTime → RequestTime × List RequestTime
  -- sort.Sort and sort.Strings
  pub sort_requests : (ReqInfo → ReqInfo → Bool) → List ReqInfo → List ReqInfo
  pub sort_workers : (WorkerInfo → WorkerInfo → Bool) → List WorkerInfo → List WorkerInfo
  pub sort_strings : List Text → List Text
  -- net.ResolveTCPAddr("tcp", s)
  pub resolve_tcp_addr : Text → Option TcpAddr
  -- strings.ToLower, strings.ToUpper, strings.TrimSpace
  pub to_lower : Text → Text
  pub to_upper : Text → Text
  pub trim_space : Text → Text

-- container/heap: Push and Pop keep a heap, Push adds the element, Pop removes and returns the
-- minimum, which is element 0.
pub record HeapLaws (std : Std) : Type 1 where
  pub IsHeap : List RequestTime → Type 0
  pub nil_heap : IsHeap []
  pub push_heap :
      (x : RequestTime) (h : List RequestTime)
      → IsHeap h
      → IsHeap ((std.heap_push x h).0 ∷ (std.heap_push x h).1)
  pub push_perm :
      (x : RequestTime) (h : List RequestTime)
      → Perm ((std.heap_push x h).0 ∷ (std.heap_push x h).1) (x ∷ h)
  pub pop_root : (x : RequestTime) (h : List RequestTime) → (std.heap_pop x h).0 ≡ x
  pub pop_heap :
      (x : RequestTime) (h : List RequestTime) → IsHeap (x ∷ h) → IsHeap (std.heap_pop x h).1
  pub pop_perm : (x : RequestTime) (h : List RequestTime) → Perm (std.heap_pop x h).1 h
  pub root_least :
      (x y : RequestTime) (h : List RequestTime)
      → IsHeap (x ∷ h)
      → Mem y h
      → request_time_less y x ≡ false

-- sort: Sort leaves the elements of the slice, in some order.
pub record SortLaws (std : Std) : Type 0 where
  pub sort_workers_perm :
      (less : WorkerInfo → WorkerInfo → Bool) (l : List WorkerInfo)
      → Perm (std.sort_workers less l) l
