-- ===== src/State/NotifyTxn/Collected.antt =====
-- What a notify transaction has collected when it ends.
use bencoscar.Prelude.{
  ℕ, ◌+◌, ◌≤◌, ◌≡◌, refl, sym, ap, ◌∙◌, subst, List, [], ◌∷◌, Option, none, some, Bool, true, false,
  not, ◌||◌, bytes_eq, bytes_eq→eq, ltb, length, if◌then◌else◌, inl, inr, arith, Bool-cases,
}
use bencoscar.State.NotifyTxn.{
  NotifyTxn, TxnError, txn_not_active, txn_too_many_names, begin_notify_txn, is_named, put_name,
  put_names, notify_txn, end_notify_txn,
}

-- No name stands twice.
abbrev pub AllDistinct : List (List ℕ) → Type 0
AllDistinct [] = Unit {0}
AllDistinct (n ∷ ns) = (is_named n ns ≡ false) × AllDistinct ns

abbrev Call : Type 0
Call = List (List ℕ) × Option TxnError

-- NotifyTxn for one list of names after another, with what it returned.
abbrev pub calls : List (List (List ℕ)) → NotifyTxn → List Call × NotifyTxn
calls [] t = ([], t)
calls (ns ∷ rest) t =
    let (e, t') = notify_txn ns t in let (log, t'') = calls rest t' in ((ns, e) ∷ log, t'')

-- Some call that did not fail gave the name, or was made at all.
abbrev pub is_given : List ℕ → List Call → Bool
is_given n [] = false
is_given n ((ns, none) ∷ log) = is_named n ns || is_given n log
is_given n ((ns, some e) ∷ log) = is_given n log

abbrev pub is_accepted : List Call → Bool
is_accepted [] = false
is_accepted ((ns, none) ∷ log) = true
is_accepted ((ns, some e) ∷ log) = is_accepted log

or_true : (a : Bool) → (a || true) ≡ true
or_true true = refl
or_true false = refl

or_false : (a : Bool) → (a || false) ≡ a
or_false true = refl
or_false false = refl

pub or_assoc : (a b c : Bool) → ((a || b) || c) ≡ (a || (b || c))
or_assoc true b c = refl
or_assoc false b c = refl

is_named-put_name :
    (n m : List ℕ) (ns : List (List ℕ))
    → is_named n (put_name m ns) ≡ (is_named n ns || bytes_eq m n)
unfolding put_name
is_named-put_name n m ns = elim (Bool-cases (is_named m ns)) [
  | inl t ↦ elim (Bool-cases (bytes_eq m n)) [
    | inl e ↦
        let named : is_named n ns ≡ true =
          subst (λ z. is_named z ns ≡ true) (bytes_eq→eq m n e) t in
        rw (t, e, named) refl
    | inr f ↦ rw (t, f) (sym (or_false (is_named n ns)))
  ]
  | inr f ↦ elim (Bool-cases (bytes_eq m n)) [
    | inl e ↦ rw (f, e) (sym (or_true (is_named n ns)))
    | inr g ↦ rw (f, g) (sym (or_false (is_named n ns)))
  ]
]

pub is_named-put_names :
    (n : List ℕ) (ms ns : List (List ℕ))
    → is_named n (put_names ms ns) ≡ (is_named n ns || is_named n ms)
unfolding put_names
is_named-put_names n [] ns = sym (or_false (is_named n ns))
is_named-put_names n (m ∷ ms) ns =
    is_named-put_names n ms (put_name m ns)
    ∙ ap (λ z. z || is_named n ms) (is_named-put_name n m ns)
    ∙ or_assoc (is_named n ns) (bytes_eq m n) (is_named n ms)
    ∙ ap (λ z. is_named n ns || z) (join (bytes_eq m n))
  where
    join : (b : Bool) → (b || is_named n ms) ≡ (if b then true else is_named n ms)
    join true = refl
    join false = refl

put_name-AllDistinct :
    (m : List ℕ) (ns : List (List ℕ)) → AllDistinct ns → AllDistinct (put_name m ns)
unfolding put_name
put_name-AllDistinct m ns d = elim (Bool-cases (is_named m ns)) [
  | inl t ↦ rw t d
  | inr f ↦ rw f (f, d)
]

put_name-length : (m : List ℕ) (ns : List (List ℕ)) → length (put_name m ns) ≤ length ns + 1
unfolding put_name
put_name-length m ns = elim (Bool-cases (is_named m ns)) [
  | inl t ↦ rw t (omega arith)
  | inr f ↦ rw f (omega arith)
]

pub put_names-kept :
    (ms ns : List (List ℕ))
    → AllDistinct ns
    → AllDistinct (put_names ms ns) × (length (put_names ms ns) ≤ length ns + length ms)
unfolding put_names
put_names-kept [] ns d = (d, omega arith)
put_names-kept (m ∷ ms) ns d =
    let (e, h) = put_names-kept ms (put_name m ns) (put_name-AllDistinct m ns d) in
    (e, omega (arith, h, put_name-length m ns))

-- What an open transaction keeps.
record IsOpen (t : NotifyTxn) : Type 0 where
  opened : t.txn_active ≡ true
  few : length t.names ≤ 1000
  distinct : AllDistinct t.names

-- What has been collected, beside what a transaction starts with.
record Collects (n : List ℕ) (t t' : NotifyTxn) (log : List Call) : Type 0 where
  stays : IsOpen t'
  sends : t'.should_send ≡ (t.should_send || is_accepted log)
  named : is_named n t'.names ≡ (is_named n t.names || is_given n log)

notify_txn-open :
    (b : Bool) (ns : List (List ℕ)) (t : NotifyTxn)
    → t.txn_active ≡ true
    → ltb 1000 (length t.names + length ns) ≡ b
    → notify_txn ns t ≡ (
        if b
        then (some txn_too_many_names, t)
        else (none, record t { should_send = true; names = put_names ns t.names }))
unfolding notify_txn
notify_txn-open b ns t h e =
    ap
      (λ a.
        if not a
        then (some txn_not_active, t)
        else if ltb 1000 (length t.names + length ns)
        then (some txn_too_many_names, t)
        else (none, record t { should_send = true; names = put_names ns t.names }))
      h
    ∙ ap
        (λ c.
          if c
          then (some txn_too_many_names, t)
          else (none, record t { should_send = true; names = put_names ns t.names }))
        e

calls-Collects :
    (css : List (List (List ℕ))) (n : List ℕ) (t : NotifyTxn)
    → IsOpen t
    → Collects n t ((calls css t).1) ((calls css t).0)
calls-Collects [] n t o = record {
  stays = o;
  sends = sym (or_false t.should_send);
  named = sym (or_false (is_named n t.names));
}
calls-Collects (ns ∷ css) n t o = elim (Bool-cases (ltb 1000 (length t.names + length ns))) [
  | inl l ↦
      let h = calls-Collects css n t o in
      after (some txn_too_many_names, t) (notify_txn-open true ns t o.opened l)
        (record { stays = h.stays; sends = h.sends; named = h.named })
  | inr g ↦
      let (d, k) = put_names-kept ns t.names o.distinct in
      let t' : NotifyTxn = record t { should_send = true; names = put_names ns t.names } in
      let h =
        calls-Collects css n t'
          (record { opened = o.opened; few = ground (arith, g, k); distinct = d }) in
      after (none, t') (notify_txn-open false ns t o.opened g)
        (record {
          stays = h.stays;
          sends = h.sends ∙ sym (or_true t.should_send);
          named =
              h.named
              ∙ ap (λ z. z || is_given n (calls css t').0) (is_named-put_names n ns t.names)
              ∙ or_assoc (is_named n t.names) (is_named n ns) (is_given n (calls css t').0);
        })
]
  where
    after :
        (q : Option TxnError × NotifyTxn)
        → notify_txn ns t ≡ q
        → Collects n t ((calls css q.1).1) ((ns, q.0) ∷ (calls css q.1).0)
        → Collects n t ((calls (ns ∷ css) t).1) ((calls (ns ∷ css) t).0)
    after q e c =
        subst (λ q. Collects n t ((calls css q.1).1) ((ns, q.0) ∷ (calls css q.1).0)) (sym e) c

abbrev no_txn : NotifyTxn
no_txn = record { txn_active = false; should_send = false; names = [] }

end_notify_txn-open :
    (t : NotifyTxn) → t.txn_active ≡ true → end_notify_txn t ≡ ((t.should_send, t.names), no_txn)
unfolding end_notify_txn
end_notify_txn-open t h =
    ap (λ a. if not a then ((false, []), no_txn) else ((t.should_send, t.names), no_txn)) h

-- Whatever NotifyTxn is called with between BeginNotifyTxn and EndNotifyTxn, the latter says to notify
-- exactly if some call did not fail, and returns at most 1000 names, none of them twice, which are those
-- that the calls that did not fail gave; it closes the transaction, after which NotifyTxn fails.
pub end_notify_txn-collected :
    (css : List (List (List ℕ))) (n : List ℕ) (ns : List (List ℕ)) (t : NotifyTxn)
    → let (log, t') = calls css (begin_notify_txn t) in
      let ((notify, names), t'') = end_notify_txn t' in
      (notify ≡ is_accepted log)
      × (is_named n names ≡ is_given n log)
      × AllDistinct names
      × (length names ≤ 1000)
      × ((notify_txn ns t'').0 ≡ some txn_not_active)
unfolding begin_notify_txn notify_txn
end_notify_txn-collected css n ns t = finish (calls css (begin_notify_txn t)) (
    calls-Collects css n (begin_notify_txn t)
      (record { opened = refl; few = omega arith; distinct = tt }))
  where
    finish :
        (r : List Call × NotifyTxn)
        → Collects n (begin_notify_txn t) r.1 r.0
        → ((end_notify_txn r.1).0.0 ≡ is_accepted r.0)
          × (is_named n (end_notify_txn r.1).0.1 ≡ is_given n r.0)
          × AllDistinct (end_notify_txn r.1).0.1
          × (length (end_notify_txn r.1).0.1 ≤ 1000)
          × ((notify_txn ns (end_notify_txn r.1).1).0 ≡ some txn_not_active)
    finish r c =
        subst
          (λ e.
            (e.0.0 ≡ is_accepted r.0)
            × (is_named n e.0.1 ≡ is_given n r.0)
            × AllDistinct e.0.1
            × (length e.0.1 ≤ 1000)
            × ((notify_txn ns e.1).0 ≡ some txn_not_active))
          (sym (end_notify_txn-open r.1 c.stays.opened))
          (c.sends, c.named, c.stays.distinct, c.stays.few, refl)
