-- ===== src/Collector/Rows.antt =====
-- The row of an account, and what the statements of the repository do to it.
use mathlib.Core.Option
use footjob.Base.{
  ℕ, ◌≡◌, ◌∙◌, false, Option, none, some, List, ◌==◌, ==→eq, inl, inr, find, any, update_where,
  updated, find-update_where, find-append, Bool-cases, ok, arith, find-key, Yields, Yields-pure,
  Yields-err, Yields-if, integrity_error, find-any,
}
use footjob.Collector.State.{TelegramCollectorOperationState, Gate, of_account, or_unknown}
use footjob.Collector.{get, insert_default}

abbrev pub row_of : ℕ → Gate → Option TelegramCollectorOperationState
row_of account_id g = find (of_account account_id) g.states

pub get-row_of :
    (g : Gate) (a : ℕ) (s : TelegramCollectorOperationState) → row_of a g ≡ some s → get g a ≡ ok s
unfolding get
get-row_of g a s h = rw h

pub row_of-get :
    (g : Gate) (a : ℕ) (s : TelegramCollectorOperationState) → get g a ≡ ok s → row_of a g ≡ some s
unfolding get
row_of-get g a s h = found (row_of a g) h
  where
    found : (o : Option TelegramCollectorOperationState) → or_unknown o ≡ ok s → o ≡ some s
    found none e = cc
    found (some x) e = cc

pub row_of-account :
    (g : Gate) (a : ℕ) (s : TelegramCollectorOperationState)
    → row_of a g ≡ some s
    → s.collector_account_id ≡ a
row_of-account g a s h = ==→eq _ _ (find-key (of_account a) g.states s h)

module _ (a b : ℕ) (f : TelegramCollectorOperationState → TelegramCollectorOperationState)
    (keep : (s : TelegramCollectorOperationState)
      → (f s).collector_account_id ≡ s.collector_account_id) where
  keeps_key :
      (s : TelegramCollectorOperationState)
      → of_account b (updated (of_account a) f s) ≡ of_account b s
  keeps_key s = elim (Bool-cases (of_account a s)) [ inl e ↦ rw (e, keep s) | inr e ↦ rw e ]

  pub row_of-update :
      (rows : List TelegramCollectorOperationState)
      → find (of_account b) (update_where (of_account a) f rows)
        ≡ Option.map (updated (of_account a) f) (find (of_account b) rows)
  row_of-update rows = find-update_where (of_account b) (of_account a) f keeps_key rows

-- An update of an account's row gives the row its new values.
pub row_of-updated :
    (a : ℕ) (f : TelegramCollectorOperationState → TelegramCollectorOperationState)
    → ((s : TelegramCollectorOperationState) → (f s).collector_account_id ≡ s.collector_account_id)
    → (g : Gate) (s : TelegramCollectorOperationState) → row_of a g ≡ some s
    → find (of_account a) (update_where (of_account a) f g.states) ≡ some (f s)
row_of-updated a f keep g s h =
    row_of-update a a f keep g.states ∙ rw h (rw (find-key (of_account a) g.states s h))

-- An update of one account's row leaves another's alone.
pub row_of-other :
    (a b : ℕ) (f : TelegramCollectorOperationState → TelegramCollectorOperationState)
    → ((s : TelegramCollectorOperationState) → (f s).collector_account_id ≡ s.collector_account_id)
    → (g : Gate) (s : TelegramCollectorOperationState) → a == b ≡ false
    → row_of b g ≡ some s
    → find (of_account b) (update_where (of_account a) f g.states) ≡ some s
row_of-other a b f keep g s different h =
    let own = row_of-account g b s h in
    row_of-update a b f keep g.states ∙ rw h (rw own (rw (flipped a b different)))
  where
    flipped : (a b : ℕ) → a == b ≡ false → b == a ≡ false
    flipped a b e = ground arith

pub insert_default-Keeps :
    (now a : ℕ) (g : Gate) (b : ℕ) (s : TelegramCollectorOperationState)
    → row_of b g ≡ some s
    → Yields (λ x. row_of b x ≡ some s) (insert_default now a g)
unfolding insert_default
insert_default-Keeps now a g b s h =
    Yields-if (any (of_account a) g.states) _ _ (λ e. Yields-pure h)
      λ e.
        Yields-if (any (λ x. x == a) g.accounts) _ _
          (λ f. Yields-pure (find-append (of_account b) g.states _ s h))
          λ f. Yields-err integrity_error

pub insert_default_present :
    (now a : ℕ) (g : Gate) (s : TelegramCollectorOperationState)
    → row_of a g ≡ some s
    → insert_default now a g ≡ ok g
unfolding insert_default
insert_default_present now a g s h = rw (find-any (of_account a) g.states s h)
