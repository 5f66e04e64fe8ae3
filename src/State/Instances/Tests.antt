-- ===== src/State/Instances/Tests.antt =====
-- A session with two instances.
use bencoscar.Prelude.{ℕ, suc, ◌+◌, ◌≡◌, ◌==◌, refl, [], ◌∷◌, false, arith, inl, inr, if◌then◌else◌}
use bencoscar.Wire.Reader.{ok}
use bencoscar.State.Instances.{
  SessionInstance, Session, store, search_num, generate_instance_num, add_instance, close_instance,
  close_session, instance_count,
}
use bencoscar.State.Instances.Numbers.{NumberOf, generate_instance_num-NumberOf}
use bencoscar.State.Instances.Linked.{IsLinked, HasPointer}
use bencoscar.State.Instances.Adding.{Numbered, add_instance-IsLinked}
use bencoscar.State.Instances.Closing.{
  Reaches, finished, close_instance-IsLinked, close_instance-twice,
}
use bencoscar.State.Instances.Emptying.{close_session-all}

abbrev instance : ℕ → SessionInstance
instance n = record { instance_num = n; closed = false; signon_complete = false }

abbrev two : Session
two = record {
  heap = λ r. instance (suc r);
  next = 2;
  instances = (1, 0) ∷ (2, 1) ∷ [];
  instances_ordered = 0 ∷ 1 ∷ [];
  session_closed = 0;
  instance_closed = 0;
}

two-IsLinked : IsLinked two
two-IsLinked = record {
  same = refl;
  entries = (refl, refl, (refl, tt), (refl, tt), (refl, refl, tt, tt, tt));
  allocated = (omega arith, (omega arith, tt));
}

abbrev three : Session
three = record two {
  heap = store 2 (instance 3) (λ r. instance (suc r));
  next = 3;
  instances = (1, 0) ∷ (2, 1) ∷ (3, 2) ∷ [];
  instances_ordered = 0 ∷ 1 ∷ 2 ∷ [];
}

generate_instance_num-NumberOf_example : NumberOf ((1, 0) ∷ (3, 1) ∷ []) (ok 2)
unfolding search_num generate_instance_num
generate_instance_num-NumberOf_example = generate_instance_num-NumberOf ((1, 0) ∷ (3, 1) ∷ [])

add_instance-IsLinked_example : IsLinked three × HasPointer 2 three.instances × Numbered two 3
unfolding add_instance search_num store
add_instance-IsLinked_example = add_instance-IsLinked two three 2 two-IsLinked refl

close_instance-IsLinked_example :
    IsLinked (close_instance 1 two)
    × (suc (instance_count (close_instance 1 two)) ≡ instance_count two)
    × ((close_instance 1 two).session_closed
        ≡ (if instance_count two == 1 then two.session_closed + 1 else two.session_closed))
close_instance-IsLinked_example = close_instance-IsLinked 1 two two-IsLinked (inr (inl refl))

close_session-all_example :
    ((close_session two).instances ≡ [])
    × ((close_session two).instances_ordered ≡ [])
    × ((close_session two).session_closed
        ≡ (if instance_count two == 0 then two.session_closed else two.session_closed + 1))
close_session-all_example = close_session-all two two-IsLinked

close_instance-twice_example :
    (t : Session) × Reaches 0 1 two finished finished t
    × (t.session_closed ≡ two.session_closed + 2)
close_instance-twice_example = close_instance-twice two 1 0 2 1 two-IsLinked refl
