-- ===== src/State/NotifyTxn/Tests.antt =====
-- The notify transaction at concrete names.
use bencoscar.Prelude.{ℕ, ◌≤◌, ◌≡◌, refl, List, [], ◌∷◌, some, true, false, length}
use bencoscar.State.NotifyTxn.{
  NotifyTxn, txn_not_active, begin_notify_txn, is_named, put_name, put_names, notify_txn,
  end_notify_txn,
}
use bencoscar.State.NotifyTxn.Collected.{
  AllDistinct, calls, is_given, is_accepted, end_notify_txn-collected,
}

abbrev idle_txn : NotifyTxn
idle_txn = record { txn_active = false; should_send = false; names = [] }

-- Everyone first, then "a" and "b", then "a" again.
abbrev three_calls : List (List (List ℕ))
three_calls = [] ∷ ((97 ∷ []) ∷ (98 ∷ []) ∷ []) ∷ ((97 ∷ []) ∷ []) ∷ []

-- Whoever asked for everyone gets two names only.
narrowed :
    (end_notify_txn (calls three_calls (begin_notify_txn idle_txn)).1).0
    ≡ (true, (98 ∷ []) ∷ (97 ∷ []) ∷ [])
unfolding begin_notify_txn put_name put_names notify_txn end_notify_txn
narrowed = refl

end_notify_txn-collected_example :
    let (log, t') = calls three_calls (begin_notify_txn idle_txn) in
    let ((notify, names), t'') = end_notify_txn t' in
    (notify ≡ is_accepted log)
    × (is_named (97 ∷ []) names ≡ is_given (97 ∷ []) log)
    × AllDistinct names
    × (length names ≤ 1000)
    × ((notify_txn [] t'').0 ≡ some txn_not_active)
end_notify_txn-collected_example = end_notify_txn-collected three_calls (97 ∷ []) [] idle_txn
