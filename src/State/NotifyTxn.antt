-- ===== src/State/NotifyTxn.antt =====
-- The notify transaction of an instance (state/session.go): whom to tell when a batch of changes ends.
-- The set of names is a list; nil and the empty map are one.
pub mod Collected
pub mod Tests
use bencoscar.Prelude.{
  ℕ, ◌+◌, List, [], ◌∷◌, Option, none, some, Bool, true, false, not, bytes_eq, ltb, length,
  if◌then◌else◌,
}

pub record NotifyTxn : Type 0 where
  pub txn_active : Bool
  pub should_send : Bool
  pub names : List (List ℕ)

-- errNotifyTxnNotActive, errNotifyTxnTooManyNames
pub data TxnError : Type 0 where
  txn_not_active txn_too_many_names : TxnError

-- BeginNotifyTxn
unfoldable pub begin_notify_txn : NotifyTxn → NotifyTxn
begin_notify_txn t = record { txn_active = true; should_send = false; names = [] }

abbrev pub is_named : List ℕ → List (List ℕ) → Bool
is_named n [] = false
is_named n (k ∷ ks) = if bytes_eq k n then true else is_named n ks

-- The loop that sets every name in the map.
unfoldable pub put_name : List ℕ → List (List ℕ) → List (List ℕ)
put_name n names = if is_named n names then names else n ∷ names

unfoldable pub put_names : List (List ℕ) → List (List ℕ) → List (List ℕ)
unfolding put_name
put_names [] names = names
put_names (n ∷ ns) names = put_names ns (put_name n names)

-- NotifyTxn
unfoldable pub notify_txn : List (List ℕ) → NotifyTxn → Option TxnError × NotifyTxn
unfolding put_names
notify_txn ns t =
    if not t.txn_active
    then (some txn_not_active, t)
    else if ltb 1000 (length t.names + length ns)
    then (some txn_too_many_names, t)
    else (none, record t { should_send = true; names = put_names ns t.names })

-- EndNotifyTxn
unfoldable pub end_notify_txn : NotifyTxn → (Bool × List (List ℕ)) × NotifyTxn
end_notify_txn t =
    let cleared : NotifyTxn = record { txn_active = false; should_send = false; names = [] } in
    if not t.txn_active then ((false, []), cleared) else ((t.should_send, t.names), cleared)
