-- ===== src/Bot/Conversation.antt =====
-- The bot over the default storage: each user's conversation follows an abstract machine, which
-- knows only the function that the user's next input is for.
use go_sarah.Shared.{
  ℕ, ◌+◌, ◌≤◌, ◌≡◌, refl, sym, ap, subst, ◌∙◌, ◌≢◌, ◌⊎◌, inl, inr, false, Option, none, some, List,
  ◌++◌, arith, if◌then◌else◌, if_same, Bool-cases, ◌==◌, nat_eq, ==_iff, ==_self, Text, text_eq,
  Result, ok, err, Outcome, returns, panics,
}
use go_sarah.Errors.{Error}
use go_sarah.Messages.{Input, regular, help, abort, sender_key, is_abort}
use go_sarah.Storage.GoCache.{Cache, CacheLaws}
use go_sarah.Storage.{UserContext, Cached, Stored, default_storage, set, delete}
use go_sarah.Storage.History.{
  Memory, Agrees, answer, older, stored, set-Agrees, delete-Agrees, waits-Agrees, Agrees-now,
}
use go_sarah.Commands.{Command, CommandResponse, Content, Execution}
use go_sarah.Bot.{
  Adapter, DefaultBot, next_of, deleted, remembered, delivered, finish, fresh, continued, dispatch,
  respond, send_message,
}
use go_sarah.Bot.Respond.{outcome_of, messages_of, execution, respond_result}

module _ {V F : Type 0} where
  context_stored : Option (UserContext V F) → Memory F → Memory F
  context_stored none m = m
  context_stored (some u) m = stored u.next m

  -- The context that an execution leaves.
  unfoldable pub left_by : Execution V F → Memory F → Memory F
  unfolding context_stored
  left_by panics m = m
  left_by (returns (err e)) m = m
  left_by (returns (ok none)) m = m
  left_by (returns (ok (some res))) m = context_stored res.user_context m

module _ {D V F : Type 0} {d : ℕ} (c : Cache (Cached V F) d) (adapter : Adapter D V F) where
  abbrev UserBot : Type 0
  UserBot = DefaultBot D V F (Stored c.Store)

  abbrev pub hears : Input D → UserBot → UserBot × Outcome (Option Error)
  hears = respond (default_storage c) adapter

  -- A context that is there is taken out before its function is called.
  abbrev pub taken : Option F → Memory F → Memory F
  taken none m = m
  taken (some f) m = none

  -- The machine: what is remembered of a user after an input of that user.
  unfoldable pub turn : Input D → List (Command D V F) → Memory F → Memory F
  turn i cs m =
      let o = answer d m in left_by (execution (default_storage c) adapter i cs o) (taken o m)

  turn_stored :
      (i : Input D) (cs : List (Command D V F)) (res : CommandResponse V F) (u : UserContext V F)
      (f : F)
      → execution (default_storage c) adapter i cs none ≡ returns (ok (some res))
      → res.user_context ≡ some u
      → u.next ≡ some f
      → turn i cs none ≡ some (f, 0)
  unfolding turn answer left_by stored
  turn_stored i cs res u f x q nx = rw (x, left_by, q, nx)

  answer_young : (n : ℕ) (f : F) → (n ≤ d) ⊎ (d ≡ 0) → answer d (older n (some (f, 0))) ≡ some f
  unfolding answer older
  answer_young n f young = ground arith

  execution_waiting :
      (j : Input D) (cs : List (Command D V F)) (f : F)
      → is_abort j ≡ false
      → execution (default_storage c) adapter j cs (some f) ≡ adapter.call f j
  unfolding execution
  execution_waiting (abort g x) cs f h = cc
  execution_waiting (regular x) cs f h = refl
  execution_waiting (help g x) cs f h = refl

  module _ (laws : CacheLaws c) where
    -- The bot has a storage, and it agrees with what is remembered of the user.
    abbrev pub Follows : Text → Memory F → UserBot → Type 0
    Follows k m b = (s : Stored c.Store) × (b.storage ≡ some s) × Agrees c laws k m s

    remembered-Agrees :
        (key k : Text) (o : Option (UserContext V F)) (m : Memory F) (s : Stored c.Store)
        → Agrees c laws k m s
        → (s' : Stored c.Store) × (remembered (default_storage c) adapter key o (some s) ≡ some s')
          × Agrees c laws k (if key == k then context_stored o m else m) s'
    unfolding remembered context_stored
    remembered-Agrees key k none m s h = (s, refl, rw (if_same (key == k) m) h)
    remembered-Agrees key k (some u) m s h =
        ((set c key u s).0, refl, set-Agrees c laws k key u m s h)

    delivered_keeps :
        (i : Input D) (o : Option (Content V)) (b : UserBot)
        → (delivered (default_storage c) adapter i o b).storage ≡ b.storage
    unfolding delivered send_message
    delivered_keeps i none b = refl
    delivered_keeps i (some v) b = refl

    -- The user whose input it is follows the machine, every other user stays as they were.
    finish-Follows :
        (k : Text) (m : Memory F) (i : Input D) (x : Execution V F) (b : UserBot)
        → Follows k m b
        → Follows k
            (if sender_key i == k then left_by x m else m)
            (finish (default_storage c) adapter i x b).0
    unfolding finish left_by
    finish-Follows k m i panics b h = rw (if_same (sender_key i == k) m) h
    finish-Follows k m i (returns (err e)) b h = rw (if_same (sender_key i == k) m) h
    finish-Follows k m i (returns (ok none)) b h = rw (if_same (sender_key i == k) m) h
    finish-Follows k m i (returns (ok (some res))) b (s, q, h) =
        let (s', stored', agrees) = remembered-Agrees (sender_key i) k res.user_context m s h in
        (
          s',
          delivered_keeps i res.content _
              ∙ ap (remembered (default_storage c) adapter (sender_key i) res.user_context) q
              ∙ stored',
          agrees,
        )

    answered :
        (i : Input D) (m : Memory F) (b : UserBot)
        → Follows (sender_key i) m b
        → next_of (default_storage c) adapter (sender_key i) b.storage ≡ ok (answer d m)
    unfolding next_of
    answered i m b (s, q, h) = rw (q, next_of) (Agrees-now c laws (sender_key i) m s h)

    deleted-Follows :
        (key k : Text) (m : Memory F) (b : UserBot)
        → Follows k m b
        → Follows k
            (if key == k then none else m)
            (record b { storage = deleted (default_storage c) adapter key b.storage })
    unfolding deleted
    deleted-Follows key k m b (s, q, h) =
        ((delete c key s).0, rw (q, deleted), delete-Agrees c laws k key m s h)

    continued-Follows :
        (k : Text) (m : Memory F) (i : Input D) (f : F) (b : UserBot)
        → Follows k m b
        → Follows k
            (if sender_key i == k
              then left_by (execution (default_storage c) adapter i b.commands (some f)) m
              else m)
            (continued (default_storage c) adapter i f b).0
    unfolding continued execution left_by
    continued-Follows k m (abort g x) f b h = rw (if_same (x.sender_key == k) m) h
    continued-Follows k m (regular x) f b h =
        finish-Follows k m (regular x) (adapter.call f (regular x)) b h
    continued-Follows k m (help g x) f b h =
        finish-Follows k m (help g x) (adapter.call f (help g x)) b h

    -- For every storage answer: what `Respond` does to what is remembered of a user.
    dispatch-Follows :
        (k : Text) (m : Memory F) (i : Input D) (o : Option F) (b : UserBot)
        → Follows k m b
        → Follows k
            (if sender_key i == k
              then left_by (execution (default_storage c) adapter i b.commands o) (taken o m)
              else m)
            (dispatch (default_storage c) adapter i (ok o) b).0
    unfolding dispatch execution
    dispatch-Follows k m i none b h =
        finish-Follows k m i (fresh (default_storage c) adapter i b.commands) b h
    dispatch-Follows k m i (some f) b h =
        let b' : UserBot = record b {
          storage = deleted (default_storage c) adapter (sender_key i) b.storage;
        } in
        elim (Bool-cases (sender_key i == k)) [
          | inl same ↦ rw same (
              rw same at (
                continued-Follows k none i f b'
                  (rw same at (deleted-Follows (sender_key i) k m b h))))
          | inr other ↦ rw other (
              rw other at (
                continued-Follows k m i f b'
                  (rw other at (deleted-Follows (sender_key i) k m b h))))
        ]

    -- For a cache with the documented behaviour: an input moves what is remembered of its sender by
    -- the machine. A waiting function is taken out and called, unless it has expired or the input is
    -- an abort; without one the commands are searched; and what was executed leaves its own context.
    pub respond-turn :
        (i : Input D) (m : Memory F) (b : UserBot)
        → Follows (sender_key i) m b
        → Follows (sender_key i) (turn i b.commands m) (hears i b).0
    unfolding respond turn
    respond-turn i m b h =
        rw (answered i m b h, respond)
          (rw (==_self (sender_key i)) at (dispatch-Follows (sender_key i) m i (answer d m) b h))

    dispatch_other_user :
        (k : Text) (m : Memory F) (i : Input D) (r : Result Error (Option F)) (b : UserBot)
        → (sender_key i == k) ≡ false
        → Follows k m b
        → Follows k m (dispatch (default_storage c) adapter i r b).0
    unfolding dispatch
    dispatch_other_user k m i (err e) b apart h = h
    dispatch_other_user k m i (ok o) b apart h = rw apart at (dispatch-Follows k m i o b h)

    -- An input leaves every other user's conversation as it was.
    pub respond_other_user :
        (i : Input D) (k : Text) (m : Memory F) (b : UserBot)
        → sender_key i ≢ k
        → Follows k m b
        → Follows k m (hears i b).0
    unfolding respond
    respond_other_user i k m b apart h =
        let r = next_of (default_storage c) adapter (sender_key i) b.storage in
        dispatch_other_user k m i r b (ground (arith, apart, ==_iff (sender_key i) k)) h

    abbrev pub later : ℕ → UserBot → UserBot
    later n b = record b {
      storage = elim b.storage [ none ↦ none | some s ↦ some (record s { now = s.now + n }) ];
    }

    later-Follows :
        (n : ℕ) (k : Text) (m : Memory F) (b : UserBot)
        → Follows k m b
        → Follows k (older n m) (later n b)
    later-Follows n k m b (s, q, h) =
        (record s { now = s.now + n }, rw q, waits-Agrees c laws k n m s h)

    -- A stateful command: nothing waits for the user, the first input is answered by a response with
    -- a next function, and another input of the same user that is no abort comes while that has not
    -- expired. Then the function is called with the second input, whatever the commands are: the
    -- outcome of the second call is that of the function, and its messages are all that is sent.
    pub stateful_command :
        (i j : Input D) (n : ℕ) (b : UserBot) (res : CommandResponse V F) (u : UserContext V F)
        (f : F)
        → Follows (sender_key i) none b
        → execution (default_storage c) adapter i b.commands none ≡ returns (ok (some res))
        → res.user_context ≡ some u
        → u.next ≡ some f
        → sender_key j ≡ sender_key i
        → is_abort j ≡ false
        → (n ≤ d) ⊎ (d ≡ 0)
        → let b' = later n (hears i b).0 in
          ((hears j b').1 ≡ outcome_of (adapter.call f j))
          × ((hears j b').0.sent ≡ b'.sent ++ messages_of j (adapter.call f j))
    stateful_command i j n b res u f h x q nx same plain young =
        let b' : UserBot = later n (hears i b).0 in
        let fresh_turn =
          subst (λ (m : Memory F). Follows (sender_key i) m (hears i b).0)
            (turn_stored i b.commands res u f x q nx) (respond-turn i none b h) in
        let waiting =
          subst (λ (k : Text). Follows k (older n (some (f, 0))) b') (sym same)
            (later-Follows n (sender_key i) (some (f, 0)) (hears i b).0 fresh_turn) in
        let there =
          answered j (older n (some (f, 0))) b' waiting ∙ ap ok (answer_young n f young) in
        let (outcome, sends, keeps) =
          respond_result (default_storage c) adapter j b' (some f) there in
        let runs = execution_waiting j b'.commands f plain in
        (
          outcome ∙ ap outcome_of runs,
          sends ∙ ap (λ (y : Execution V F). b'.sent ++ messages_of j y) runs,
        )
