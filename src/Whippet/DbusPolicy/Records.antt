-- ===== src/Whippet/DbusPolicy/Records.antt =====
-- The own, send and receive rules that the broker is given for a user.
use bottlerocket_core_kit.Prelude.{
  ◌≡◌, refl, ◌∙◌, sym, ap, Bool, true, false, List, [], ◌∷◌, ◌++◌, inl, inr, Bool-cases, filter_by,
}
use bottlerocket_core_kit.Prelude.Text.{text_eq}
use bottlerocket_core_kit.Prelude.HashMap.{text_key}
use bottlerocket_core_kit.Prelude.Outcome.{ok}
use bottlerocket_core_kit.Whippet.Rule.{
  Rule, connect_user, own, send, receive, is_connect, wildcard, name, member, path, interface,
}
use bottlerocket_core_kit.Whippet.DbusPolicy.{
  OwnRecord, MessageRecord, message_record, PolicyBatch, add_rule, add_rules, send_record,
  receive_record, own_record,
}
use bottlerocket_core_kit.Whippet.DbusPolicy.Verdict.{plain, message, wildcard_getter_ok}

-- What the rules of a kind are turned into, in their order.
unfoldable pub gathered : {A : Type 0} → (Rule → List A) → List Rule → List A
gathered pick [] = []
gathered pick (r ∷ rules) = pick r ++ gathered pick rules

unfoldable pub own_of : Rule → List OwnRecord
own_of (own n allow priority) =
    record { verdict = allow; priority = priority; prefix = text_eq n wildcard; name = plain n }
    ∷ []
own_of _ = []

unfoldable pub send_of : Rule → List MessageRecord
send_of (send d i m t p b allow priority) = message d p i m t b allow priority ∷ []
send_of _ = []

unfoldable pub receive_of : Rule → List MessageRecord
receive_of (receive s p i m t b allow priority) = message s p i m t b allow priority ∷ []
receive_of _ = []

append_assoc : {A : Type 0} (xs ys zs : List A) → (xs ++ ys) ++ zs ≡ xs ++ (ys ++ zs)
append_assoc [] ys zs = refl
append_assoc (x ∷ xs) ys zs = ap (λ l. x ∷ l) (append_assoc xs ys zs)

pub append_nothing : {A : Type 0} (xs : List A) → xs ++ [] ≡ xs
append_nothing [] = refl
append_nothing (x ∷ xs) = ap (λ l. x ∷ l) (append_nothing xs)

-- The records of a batch after a list of rules.
abbrev pub Adds :
    PolicyBatch → PolicyBatch → List OwnRecord → List MessageRecord → List MessageRecord → Type 0
Adds before after owns sends receives =
    (after.own_rules ≡ before.own_rules ++ owns)
    × (after.send_rules ≡ before.send_rules ++ sends)
    × (after.recv_rules ≡ before.recv_rules ++ receives)

add_rule-Adds :
    (batch : PolicyBatch) (rule : Rule)
    → (b : PolicyBatch) × (add_rule batch rule ≡ ok b)
      × Adds batch b (own_of rule) (send_of rule) (receive_of rule)
unfolding add_rule own_record send_record receive_record name member path interface message_record
    own_of send_of receive_of
add_rule-Adds batch (connect_user a u p) = (
  record batch { connect_verdict = a; connect_priority = p },
  refl,
  (sym (append_nothing _), sym (append_nothing _), sym (append_nothing _)),
)
add_rule-Adds batch (own n a p) = (_, refl, (refl, sym (append_nothing _), sym (append_nothing _)))
add_rule-Adds batch (send d i m t p b a q) = (
  record batch { send_rules = batch.send_rules ++ (message d p i m t b a q ∷ []) },
  rw (wildcard_getter_ok d, wildcard_getter_ok i, wildcard_getter_ok m, wildcard_getter_ok p) refl,
  (sym (append_nothing _), refl, sym (append_nothing _)),
)
add_rule-Adds batch (receive s p i m t b a q) = (
  record batch { recv_rules = batch.recv_rules ++ (message s p i m t b a q ∷ []) },
  rw (wildcard_getter_ok s, wildcard_getter_ok i, wildcard_getter_ok m, wildcard_getter_ok p) refl,
  (sym (append_nothing _), sym (append_nothing _), refl),
)

step_on :
    {A : Type 0} (base here rest : List A) (next last : List A)
    → next ≡ base ++ here
    → last ≡ next ++ rest
    → last ≡ base ++ (here ++ rest)
step_on base here rest next last e f = f ∙ ap (λ l. l ++ rest) e ∙ append_assoc base here rest

pub add_rules-Adds :
    (rules : List Rule) (batch : PolicyBatch)
    → (b : PolicyBatch) × (add_rules batch rules ≡ ok b)
      × Adds batch b (gathered own_of rules) (gathered send_of rules) (gathered receive_of rules)
unfolding add_rules gathered
add_rules-Adds [] batch =
    (batch, refl, (sym (append_nothing _), sym (append_nothing _), sym (append_nothing _)))
add_rules-Adds (rule ∷ rules) batch =
    let (next, added, (o, s, r)) = add_rule-Adds batch rule in
    let (b, all_added, (os, ss, rs)) = add_rules-Adds rules next in
    (
      b,
      rw added all_added,
      (
        step_on batch.own_rules (own_of rule) (gathered own_of rules) next.own_rules b.own_rules o
            os,
        step_on batch.send_rules (send_of rule) (gathered send_of rules) next.send_rules
            b.send_rules s ss,
        step_on batch.recv_rules (receive_of rule) (gathered receive_of rules) next.recv_rules
            b.recv_rules r rs,
      ),
    )

-- A list of rules without connect rules, of those that another test lets through.
module _ {A : Type 0} (pick : Rule → List A)
    (no_connect : (r : Rule) → is_connect r ≡ true → pick r ≡ []) where
  -- Dropping connect rules only leaves the records.
  pub gathered-filter_by :
      (test : Rule → Bool)
      → ((r : Rule) → test r ≡ false → is_connect r ≡ true)
      → (rules : List Rule) → gathered pick (filter_by test rules) ≡ gathered pick rules
  unfolding gathered
  gathered-filter_by test only [] = refl
  gathered-filter_by test only (r ∷ rules) = elim (Bool-cases (test r)) [
    | inl keep ↦ rw keep (ap (λ l. pick r ++ l) (gathered-filter_by test only rules))
    | inr skip ↦ rw (skip, no_connect r (only r skip)) (gathered-filter_by test only rules)
  ]

  pub gathered-append :
      (xs ys : List Rule) → gathered pick (xs ++ ys) ≡ gathered pick xs ++ gathered pick ys
  unfolding gathered
  gathered-append [] ys = refl
  gathered-append (x ∷ xs) ys =
      ap (λ l. pick x ++ l) (gathered-append xs ys)
      ∙ sym (append_assoc (pick x) (gathered pick xs) (gathered pick ys))
