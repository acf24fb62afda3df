-- ===== src/Signpost/State/Sequence.antt =====
-- Sequences of operations: what a system can do to its flags between two boots.
use bottlerocket_core_kit.Prelude.{
  ◌≡◌, refl, ap, subst, ◌∙◌, true, false, some, List, [], ◌∷◌, arith, inl, inr, Option-cases,
}
use bottlerocket_core_kit.Prelude.Outcome.{Outcome, ok, err, panic, ◌>>=◌, >>=-eq-ok}
use bottlerocket_core_kit.Signpost.Crates.{BitField, Gptman}
use bottlerocket_core_kit.Signpost.Error.{Error, inactive_already_marked}
use bottlerocket_core_kit.Signpost.Set.{SetSelect, other}
use bottlerocket_core_kit.Signpost.State.{State, next}
use bottlerocket_core_kit.Signpost.State.Holds.{Represents}
use bottlerocket_core_kit.Signpost.State.Refines.{perform, Agrees, perform-Agrees, next-eq-boots}
use bottlerocket_core_kit.Signpost.State.Slots.{
  Slots, Operation, clear, mark_valid, upgrade, cancel, rollback, mark_successful, apply, boots,
  prioritize,
}

-- Several operations, until one fails.
unfoldable pub apply_all : List Operation → Slots → Outcome Error Slots
apply_all [] b = ok b
apply_all (op ∷ ops) b = do b ← apply op b; apply_all ops b

-- No operation takes away that the running set can boot, once it has booted.
current-booted :
    (op : Operation) (b b' : Slots)
    → b.current.booted ≡ true
    → apply op b ≡ ok b'
    → b'.current.booted ≡ true
unfolding apply
current-booted clear b b' h e = ground arith
current-booted mark_valid b b' h e = ground arith
current-booted upgrade b b' h e = ground arith
current-booted cancel b b' h e = ground arith
current-booted rollback b b' h e = ground arith
current-booted mark_successful b b' h e = ground arith

pub current-booted_all :
    (ops : List Operation) (b b' : Slots)
    → b.current.booted ≡ true
    → apply_all ops b ≡ ok b'
    → b'.current.booted ≡ true
unfolding apply_all
current-booted_all [] b b' h e = ground arith
current-booted_all (op ∷ ops) b b' h e =
    let (c, first, rest) = >>=-eq-ok (apply op b) (apply_all ops) e in
    current-booted_all ops c b' (current-booted op b c h first) rest

boots_something :
    (b : Slots) → b.current.booted ≡ true → (select : SetSelect) × (boots b ≡ some select)
unfolding boots
boots_something b h = elim (Option-cases (boots b)) [
  | inl found ↦ found
  | inr nothing ↦ absurd (ground (arith, nothing))
]

-- The slots after an update: the other set is to be tried once, before the running one.
abbrev updated : Slots → Slots
updated b = prioritize (record b {
  standby = record { prio = 0; tries = 1; booted = false; succeeded = b.standby.succeeded };
})

apply_all-update : (b : Slots) → apply_all (clear ∷ mark_valid ∷ upgrade ∷ []) b ≡ ok (updated b)
unfolding apply_all apply
apply_all-update b = refl

boots-updated : (b : Slots) → boots (updated b) ≡ some (other b.running)
unfolding boots
boots-updated b = ground arith

abbrev reverted : Slots → Slots
reverted b = record b {
  current = record b.current { prio = 2 };
  standby = record { prio = 0; tries = 1; booted = false; succeeded = b.standby.succeeded };
}

apply_all-revert :
    (b : Slots) → apply_all (clear ∷ mark_valid ∷ upgrade ∷ cancel ∷ []) b ≡ ok (reverted b)
unfolding apply_all apply
apply_all-revert b = refl

boots-reverted : (b : Slots) → b.current.booted ≡ true → boots (reverted b) ≡ some b.running
unfolding boots
boots-reverted b h = ground arith

apply-upgrade_twice :
    (b c : Slots) → apply upgrade b ≡ ok c → apply upgrade c ≡ err (inactive_already_marked b.disk)
unfolding apply
apply-upgrade_twice b c h = ground arith

module _ ⦃bits : BitField⦄ ⦃gpt : Gptman⦄ where
  unfoldable pub perform_all : List Operation → State gpt.Table → Outcome Error (State gpt.Table)
  perform_all [] s = ok s
  perform_all (op ∷ ops) s = do s ← perform op s; perform_all ops s

  Agrees-bind :
      (m : Outcome Error (State gpt.Table)) (a : Outcome Error Slots)
      (f : State gpt.Table → Outcome Error (State gpt.Table)) (g : Slots → Outcome Error Slots)
      → Agrees m a
      → ((s : State gpt.Table) (b : Slots) → Represents s b → Agrees (f s) (g b))
      → Agrees (m >>= f) (a >>= g)
  Agrees-bind (ok s) (ok b) f g h k = k s b h
  Agrees-bind (ok s) (err e) f g h k = absurd h
  Agrees-bind (ok s) panic f g h k = absurd h
  Agrees-bind (err e) (ok b) f g h k = absurd h
  Agrees-bind (err e) (err e') f g h k = h
  Agrees-bind (err e) panic f g h k = absurd h
  Agrees-bind panic (ok b) f g h k = absurd h
  Agrees-bind panic (err e) f g h k = absurd h
  Agrees-bind panic panic f g h k = absurd h

  -- From a state that represents slots, any sequence of operations does on the partition table what
  -- it does on the slots: it ends in a state that represents the slots' result, or at the same
  -- operation with the same error. In particular nothing panics.
  pub perform_all-Agrees :
      (ops : List Operation) (s : State gpt.Table) (b : Slots)
      → Represents s b
      → Agrees (perform_all ops s) (apply_all ops b)
  unfolding perform_all apply_all
  perform_all-Agrees [] s b r = r
  perform_all-Agrees (op ∷ ops) s b r =
      Agrees-bind (perform op s) (apply op b) (perform_all ops) (apply_all ops)
        (perform-Agrees r op) (perform_all-Agrees ops)

  Agrees-ok :
      (m : Outcome Error (State gpt.Table)) (a : Outcome Error Slots) (b : Slots)
      → a ≡ ok b
      → Agrees m a
      → (s : State gpt.Table) × (m ≡ ok s) × Represents s b
  Agrees-ok (ok s) (ok c) b e h = (s, refl, subst (Represents s) (ground arith) h)
  Agrees-ok (err _) (ok c) b e h = absurd h
  Agrees-ok panic (ok c) b e h = absurd h
  Agrees-ok m (err _) b e h = cc
  Agrees-ok m panic b e h = cc

  ok-Agrees :
      (m : Outcome Error (State gpt.Table)) (a : Outcome Error Slots) (s : State gpt.Table)
      → m ≡ ok s
      → Agrees m a
      → (b : Slots) × (a ≡ ok b) × Represents s b
  ok-Agrees (ok t) (ok b) s e h = (b, refl, subst (λ u. Represents u b) (ground arith) h)
  ok-Agrees (ok t) (err _) s e h = absurd h
  ok-Agrees (ok t) panic s e h = absurd h
  ok-Agrees (err _) a s e h = cc
  ok-Agrees panic a s e h = cc

  err-Agrees :
      (m : Outcome Error (State gpt.Table)) (a : Outcome Error Slots) (e : Error)
      → a ≡ err e
      → Agrees m a
      → m ≡ err e
  err-Agrees (ok t) (ok b) e q h = cc
  err-Agrees (ok t) (err _) e q h = absurd h
  err-Agrees (ok t) panic e q h = absurd h
  err-Agrees (err f) (ok b) e q h = absurd h
  err-Agrees (err f) (err g) e q h = cc
  err-Agrees (err f) panic e q h = absurd h
  err-Agrees panic a e q h = absurd (ground arith)

  module _ {s : State gpt.Table} {b : Slots} (r : Represents s b) where
    reaches :
        (ops : List Operation) (c : Slots) (select : SetSelect)
        → apply_all ops b ≡ ok c
        → boots c ≡ some select
        → (t : State gpt.Table) × (perform_all ops s ≡ ok t) × (next t ≡ ok (some select))
    reaches ops c select e f =
        let (t, done, r') = Agrees-ok _ _ c e (perform_all-Agrees ops s b r) in
        (t, done, next-eq-boots r' ∙ ap ok f)

    -- On a state that represents slots, clearing the other set, marking it valid and upgrading to it
    -- always succeeds, whatever the flags were, and then that set is the next to boot.
    pub update_boots_standby :
        (t : State gpt.Table) × (perform_all (clear ∷ mark_valid ∷ upgrade ∷ []) s ≡ ok t)
        × (next t ≡ ok (some (other b.running)))
    update_boots_standby = reaches _ (updated b) _ (apply_all-update b) (boots-updated b)

    -- On a state that represents slots whose running set has booted, a full upgrade that is taken
    -- back succeeds, and the running set is then the next to boot.
    pub cancel_boots_running :
        b.current.booted ≡ true
        → (t : State gpt.Table) × (perform_all (clear ∷ mark_valid ∷ upgrade ∷ cancel ∷ []) s
            ≡ ok t)
          × (next t ≡ ok (some b.running))
    cancel_boots_running h = reaches _ (reverted b) _ (apply_all-revert b) (boots-reverted b h)

    -- On a state that represents slots, right after an upgrade that succeeds another one is refused
    -- as already marked.
    pub upgrade_twice :
        {t : State gpt.Table}
        → perform upgrade s ≡ ok t
        → perform upgrade t ≡ err (inactive_already_marked b.disk)
    upgrade_twice {t} h =
        let (c, e, r') = ok-Agrees _ _ t h (perform-Agrees r upgrade) in
        err-Agrees _ _ _ (apply-upgrade_twice b c e) (perform-Agrees r' upgrade)

    -- From a state that represents slots whose running set has booted, no sequence of operations that
    -- succeeds leaves the system with no set to boot.
    pub stays_bootable :
        (ops : List Operation) {t : State gpt.Table}
        → b.current.booted ≡ true
        → perform_all ops s ≡ ok t
        → (select : SetSelect) × (next t ≡ ok (some select))
    stays_bootable ops {t} h e =
        let (c, e', r') = ok-Agrees _ _ t e (perform_all-Agrees ops s b r) in
        let (select, there) = boots_something c (current-booted_all ops b c h e') in
        (select, next-eq-boots r' ∙ ap ok there)
