-- ===== src/Channels/Abstract.antt =====
-- What the store of references promises (src/channels/refs.ts): a session's messages by their keys,
-- without the references.
use pi_recipes.Prelude.{
  Text, text_eq, text_eq_iff, true, false, List, [], ◌∷◌, Option, none, some, Bool-cases, ◌≡◌, refl,
  sym, ap, ◌∙◌, subst, inl, inr, if◌then◌else◌,
}
use pi_recipes.Prelude.Maps.{
  lookup, insert, lookup-insert_here, lookup-insert_other, lookup-insert_cases,
}
use pi_recipes.Channels.Refs.{
  ChannelMessageIdentity, ChannelRefStore, message_key, seen_again, update_message, RefCall,
  message_call, cursor_call, file_call,
}

-- The messages that a session has seen, by key.
abbrev pub Seen : Type 0
Seen = Text → Option ChannelMessageIdentity

abbrev pub see_option :
    Option ChannelMessageIdentity → ChannelMessageIdentity → ChannelMessageIdentity
see_option none identity = identity
see_option (some previous) identity = seen_again previous identity

unfoldable pub see : Text → ChannelMessageIdentity → Seen → Seen
see key identity seen k = if text_eq key k then some (see_option (seen key) identity) else seen k

module _ (stringify : Text → Option Text → Text → Text) where
  unfoldable pub see_call : RefCall → Seen → Seen
  see_call (message_call identity uuid) seen = see (message_key stringify identity) identity seen
  see_call (cursor_call value scope uuid) seen = seen
  see_call (file_call identity uuid) seen = seen

  unfoldable pub see_calls : List RefCall → Seen → Seen
  see_calls [] seen = seen
  see_calls (call ∷ rest) seen = see_calls rest (see_call call seen)

-- The message that a key stands for in a store, through its reference.
abbrev pub referred :
    Option Text → List (Text × ChannelMessageIdentity) → Option ChannelMessageIdentity
referred none messages = none
referred (some ref) messages = lookup ref messages

unfoldable pub contents : ChannelRefStore → Seen
contents store key = referred (lookup key store.by_identity) store.messages

-- Keys and references stand for each other.
pub record IsPaired (store : ChannelRefStore) : Type 0 where
  pub present :
      (key ref : Text)
      → lookup key store.by_identity ≡ some ref
      → (identity : ChannelMessageIdentity) × (lookup ref store.messages ≡ some identity)
  pub distinct :
      (key other ref : Text)
      → lookup key store.by_identity ≡ some ref
      → lookup other store.by_identity ≡ some ref
      → key ≡ other
  pub named :
      (ref : Text) (identity : ChannelMessageIdentity)
      → lookup ref store.messages ≡ some identity
      → (key : Text) × (lookup key store.by_identity ≡ some ref)

module _ (store : ChannelRefStore) (paired : IsPaired store) (key : Text)
    (identity : ChannelMessageIdentity) where
  -- The reference of another key is another one.
  other_ref :
      (ref other : Text) (k : Text)
      → lookup key store.by_identity ≡ some ref
      → text_eq key k ≡ false
      → lookup k store.by_identity ≡ some other
      → text_eq ref other ≡ false
  other_ref ref other k known apart e = elim (Bool-cases (text_eq ref other)) [
    | inr differ ↦ differ
    | inl same_key ↦
        let same : lookup key store.by_identity ≡ some other =
          known ∙ ap some ((text_eq_iff ref other).0 same_key) in
        let twice : text_eq key k ≡ true =
          (text_eq_iff key k).1 (paired.distinct key k other same e) in
        cc
  ]

  unchanged :
      (message : ChannelMessageIdentity) (ref : Text)
      → lookup key store.by_identity ≡ some ref
      → (k : Text) → text_eq key k ≡ false
      → (found : Option Text) → lookup k store.by_identity ≡ found
      → referred found (insert ref message store.messages) ≡ referred found store.messages
  unchanged message ref known k apart none e = refl
  unchanged message ref known k apart (some other) e =
      lookup-insert_other ref other _ store.messages (other_ref ref other k known apart e)

  -- A message that is seen again.
  module _ (ref : Text) (previous : ChannelMessageIdentity)
      (known : lookup key store.by_identity ≡ some ref)
      (kept : lookup ref store.messages ≡ some previous) where
    pub contents-known :
        (k : Text)
        → contents (update_message ref identity (some previous) store) k
          ≡ see key identity (contents store) k
    unfolding contents see update_message
    contents-known k = elim (Bool-cases (text_eq key k)) [
      | inl same ↦
          let here = (text_eq_iff key k).0 same in
          let messages = insert ref (seen_again previous identity) store.messages in
          rw same (
            ap (λ j. referred (lookup j store.by_identity) messages) (sym here)
            ∙ ap (λ r. referred r messages) known
            ∙ lookup-insert_here ref (seen_again previous identity) store.messages
            ∙ ap (λ p. some (see_option p identity)) (sym kept)
            ∙ ap (λ r. some (see_option (referred r store.messages) identity)) (sym known))
      | inr other ↦ rw other (unchanged _ ref known k other (lookup k store.by_identity) refl)
    ]

    pub update-IsPaired : IsPaired (update_message ref identity (some previous) store)
    unfolding update_message
    update-IsPaired = record {
      present = λ k r e. elim (Bool-cases (text_eq ref r)) [
        | inl same ↦
            let here = (text_eq_iff ref r).0 same in
            (
              seen_again previous identity,
              subst
                  (λ j.
                    lookup j (insert ref (seen_again previous identity) store.messages)
                    ≡ some (seen_again previous identity))
                  here (lookup-insert_here ref (seen_again previous identity) store.messages),
            )
        | inr other ↦
            let (i, found) = paired.present k r e in
            (
              i,
              lookup-insert_other ref r (seen_again previous identity) store.messages other ∙ found,
            )
      ];
      distinct = paired.distinct;
      named = λ r i e.
          elim (lookup-insert_cases ref r (seen_again previous identity) i store.messages e) [
            | inl (here, _) ↦ (key, known ∙ ap some here)
            | inr (_, found) ↦ paired.named r i found
          ];
    }

  -- A message that is new.
  module _ (ref : Text) (unknown : lookup key store.by_identity ≡ none)
      (fresh : lookup ref store.messages ≡ none) where
    abbrev added : ChannelRefStore
    added = record store {
      messages = insert ref identity store.messages;
      by_identity = insert key ref store.by_identity;
    }

    -- The new reference is no other message's.
    fresh_ref :
        (k other : Text) → lookup k store.by_identity ≡ some other → text_eq ref other ≡ false
    fresh_ref k other e = elim (Bool-cases (text_eq ref other)) [
      | inr apart ↦ apart
      | inl same_key ↦
          let (i, found) = paired.present k other e in
          let gone : lookup other store.messages ≡ none =
            subst (λ r. lookup r store.messages ≡ none) ((text_eq_iff ref other).0 same_key)
              fresh in
          cc
    ]

    untouched :
        (k : Text) (found : Option Text)
        → lookup k store.by_identity ≡ found
        → referred found (insert ref identity store.messages) ≡ referred found store.messages
    untouched k none e = refl
    untouched k (some other) e =
        lookup-insert_other ref other identity store.messages (fresh_ref k other e)

    pub contents-new : (k : Text) → contents added k ≡ see key identity (contents store) k
    unfolding contents see
    contents-new k = elim (Bool-cases (text_eq key k)) [
      | inl same ↦
          let here = (text_eq_iff key k).0 same in
          rw same (
            ap
              (λ j.
                referred (lookup j (insert key ref store.by_identity))
                  (insert ref identity store.messages))
              (sym here)
            ∙ ap (λ r. referred r (insert ref identity store.messages))
                (lookup-insert_here key ref store.by_identity)
            ∙ lookup-insert_here ref identity store.messages
            ∙ ap (λ r. some (see_option (referred r store.messages) identity)) (sym unknown))
      | inr other ↦ rw other (
          ap (λ r. referred r (insert ref identity store.messages))
            (lookup-insert_other key k ref store.by_identity other)
          ∙ untouched k (lookup k store.by_identity) refl)
    ]

    not_mine : (k other : Text) → lookup k store.by_identity ≡ some other → ref ≡ other → ⊥
    not_mine k other e mine =
        let same : text_eq ref other ≡ true = (text_eq_iff ref other).1 mine in
        let apart = fresh_ref k other e in cc

    not_key : (k other : Text) → lookup k store.by_identity ≡ some other → text_eq key k ≡ false
    not_key k other e = elim (Bool-cases (text_eq key k)) [
      | inr apart ↦ apart
      | inl same_key ↦
          let gone : lookup k store.by_identity ≡ none =
            subst (λ j. lookup j store.by_identity ≡ none) ((text_eq_iff key k).0 same_key)
              unknown in
          cc
    ]

    pub added-IsPaired : IsPaired added
    added-IsPaired = record {
      present = λ k r e. elim (lookup-insert_cases key k ref r store.by_identity e) [
        | inl (_, mine) ↦ (
          identity,
          subst (λ j. lookup j (insert ref identity store.messages) ≡ some identity) mine
              (lookup-insert_here ref identity store.messages),
        )
        | inr (_, old) ↦
            let (i, found) = paired.present k r old in
            (i, lookup-insert_other ref r identity store.messages (fresh_ref k r old) ∙ found)
      ];
      distinct = λ k j r e f. elim (lookup-insert_cases key k ref r store.by_identity e) [
        | inl (k_new, mine) ↦ elim (lookup-insert_cases key j ref r store.by_identity f) [
          | inl (j_new, _) ↦ sym k_new ∙ j_new
          | inr (_, old) ↦ absurd (not_mine j r old mine)
        ]
        | inr (_, k_old) ↦ elim (lookup-insert_cases key j ref r store.by_identity f) [
          | inl (_, mine) ↦ absurd (not_mine k r k_old mine)
          | inr (_, j_old) ↦ paired.distinct k j r k_old j_old
        ]
      ];
      named = λ r i e. elim (lookup-insert_cases ref r identity i store.messages e) [
        | inl (here, _) ↦ (key, lookup-insert_here key ref store.by_identity ∙ ap some here)
        | inr (_, found) ↦
            let (k, old) = paired.named r i found in
            (k, lookup-insert_other key k ref store.by_identity (not_key k r old) ∙ old)
      ];
    }
