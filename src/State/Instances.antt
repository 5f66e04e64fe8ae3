-- ===== src/State/Instances.antt =====
-- state/session.go: the instances of a session. An instance is a pointer into a heap, which the map
-- and the ordered slice of the session share. `session_closed` counts the calls of onSessCloseFn,
-- `instance_closed` those of onInstanceCloseFn.
pub mod Numbers
pub mod Linked
pub mod Adding
pub mod Closing
pub mod Emptying
pub mod Tests
use bencoscar.Prelude.{
  ℕ, zero, suc, ◌+◌, List, [], ◌∷◌, ◌++◌, map, Option, none, some, Bool, true, false, not, ◌&&◌,
  ◌==◌, length, if◌then◌else◌,
}
use bencoscar.Wire.Reader.{Result, ok, err, go_panic, ◌>>=ᵉ◌}

pub record SessionInstance : Type 0 where
  pub instance_num : ℕ
  pub closed : Bool
  pub signon_complete : Bool

pub record Session : Type 0 where
  pub heap : ℕ → SessionInstance
  pub next : ℕ
  pub instances : List (ℕ × ℕ)
  pub instances_ordered : List ℕ
  pub session_closed : ℕ
  pub instance_closed : ℕ

abbrev pub has_key : List (ℕ × ℕ) → ℕ → Bool
has_key [] k = false
has_key ((k', r) ∷ m) k = if k == k' then true else has_key m k

-- generateInstanceNum: the uint8 counts from 1 until it wraps to 0, which is 255 rounds.
unfoldable pub search_num : ℕ → ℕ → List (ℕ × ℕ) → Result ℕ
search_num zero num m = err go_panic
search_num (suc rounds) num m =
    let rest = search_num rounds (num + 1) m in if not (has_key m num) then ok num else rest

unfoldable pub generate_instance_num : List (ℕ × ℕ) → Result ℕ
unfolding search_num
generate_instance_num m = search_num 255 1 m

-- A store to the heap.
unfoldable pub store : ℕ → SessionInstance → (ℕ → SessionInstance) → ℕ → SessionInstance
store r x heap r' = if r == r' then x else heap r'

-- NewSession
unfoldable pub new_session : Session
new_session = record {
  heap = λ r. record { instance_num = 0; closed = true; signon_complete = false };
  next = 0;
  instances = [];
  instances_ordered = [];
  session_closed = 0;
  instance_closed = 0;
}

-- AddInstance: the pointer to the new instance.
unfoldable pub add_instance : Session → Result (ℕ × Session)
unfolding generate_instance_num store
add_instance s = generate_instance_num s.instances >>=ᵉ λ num. ok (
  s.next,
  record s {
    heap =
        store s.next (record { instance_num = num; closed = false; signon_complete = false })
          s.heap;
    next = s.next + 1;
    instances = s.instances ++ (num, s.next) ∷ [];
    instances_ordered = s.instances_ordered ++ s.next ∷ [];
  },
)

-- `delete` of a map, whose keys are different, and the loop that takes a pointer out of the slice.
unfoldable pub delete : ℕ → List (ℕ × ℕ) → List (ℕ × ℕ)
delete k [] = []
delete k ((k', r) ∷ m) = let rest = delete k m in if k == k' then m else (k', r) ∷ rest

unfoldable pub remove_pointer : ℕ → List ℕ → List ℕ
remove_pointer r [] = []
remove_pointer r (r' ∷ rs) = let rest = remove_pointer r rs in if r == r' then rs else r' ∷ rest

-- RemoveInstance
unfoldable pub remove_instance : ℕ → Session → Session
unfolding delete remove_pointer
remove_instance r s = record s {
  instances = delete (s.heap r).instance_num s.instances;
  instances_ordered = remove_pointer r s.instances_ordered;
}

-- InstanceCount
abbrev pub instance_count : Session → ℕ
instance_count s = length s.instances

-- live, and HasLiveInstances over the map.
abbrev pub live : SessionInstance → Bool
live x = not x.closed && x.signon_complete

unfoldable pub has_live : (ℕ → SessionInstance) → List (ℕ × ℕ) → Bool
has_live heap [] = false
has_live heap ((k, r) ∷ m) = if live (heap r) then true else has_live heap m

unfoldable pub has_live_instances : Session → Bool
unfolding has_live
has_live_instances s = has_live s.heap s.instances

-- SetSignonComplete
unfoldable pub set_signon_complete : ℕ → Session → Session
unfolding store
set_signon_complete r s = record s {
  heap = store r (record (s.heap r) { signon_complete = true }) s.heap;
}

-- The three parts of CloseInstance and closeOnly, between which other goroutines may run: the flag,
-- set under the instance's lock; RemoveInstance, under the session's lock; and the count with the
-- callback that it decides on.
unfoldable pub mark_closed : ℕ → Session → Session
unfolding store
mark_closed r s = record s { heap = store r (record (s.heap r) { closed = true }) s.heap }

unfoldable pub close_callback : Session → Session
close_callback s =
    if instance_count s == 0
    then record s { session_closed = s.session_closed + 1 }
    else record s { instance_closed = s.instance_closed + 1 }

unfoldable pub close_only_callback : Session → Session
close_only_callback s =
    if instance_count s == 0 then record s { session_closed = s.session_closed + 1 } else s

-- CloseInstance and closeOnly when nothing runs in between.
unfoldable pub close_instance : ℕ → Session → Session
unfolding mark_closed remove_instance close_callback
close_instance r s =
    if (s.heap r).closed then s else close_callback (remove_instance r (mark_closed r s))

unfoldable pub close_only : ℕ → Session → Session
unfolding mark_closed remove_instance close_only_callback
close_only r s =
    if (s.heap r).closed then s else close_only_callback (remove_instance r (mark_closed r s))

-- CloseSession: the instances that were there when it began, one after the other.
unfoldable pub close_each : List ℕ → Session → Session
unfolding close_only
close_each [] s = s
close_each (r ∷ rs) s = close_each rs (close_only r s)

unfoldable pub close_session : Session → Session
unfolding close_each
close_session s = close_each (map (λ p. p.1) s.instances) s
