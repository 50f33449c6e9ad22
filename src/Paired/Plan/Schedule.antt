-- ===== src/Paired/Plan/Schedule.antt =====
-- Lemmas about the loops of `plan` in benchmarks/_paired_contract.py, and the theorem on its trials.
use grepglint.Base.{
  ℕ, zero, suc, ◌+◌, ◌*◌, ◌/◌, ◌≤◌, String, ◌≡◌, refl, sym, ap, ◌∙◌, subst, Bool, true, false, not,
  Option, none, some, List, [], ◌∷◌, ◌++◌, append_assoc, append-nil, arith, leb, if◌then◌else◌,
  length, length-append, all,
}
use grepglint.Base.Json.{pos, int}
use grepglint.Base.Dict.{Dict, contains, distinct, has, lookup, keys}
use grepglint.Base.Result.{
  ◌>>=◌, require, >>=-eq-ok, require-eq-ok, ok-injective, key_error, err, ok,
}
use grepglint.Paired.Plan.{
  max_trials, metadata_bytes, Configuration, Source, CorpusTask, Trial, numbered, order_of,
  add_trial, add_pair, add_pairs, add_tasks, sorted, guidance_modes, checked_repetitions,
  checked_seed, is_some_selected, Corpus, plan_trials, control, with_grepglint,
}

abbrev pub opposite : Configuration → Configuration
opposite control = with_grepglint
opposite with_grepglint = control

-- Two trials, the first with `n` before it: one task and repetition in both configurations.
pub record IsPair (n : ℕ) (a b : Trial) : Type 0 where
  pub first : a.order ≡ n
  pub second : b.order ≡ n + 1
  pub first_id : a.trial_id ≡ numbered "t" (n + 1)
  pub second_id : b.trial_id ≡ numbered "t" (n + 2)
  pub first_pair : a.pair_id ≡ numbered "p" (n / 2 + 1)
  pub second_pair : b.pair_id ≡ numbered "p" (n / 2 + 1)
  pub task : a.task_id ≡ b.task_id
  pub repetition : a.repetition ≡ b.repetition
  pub source : a.source ≡ b.source
  pub configurations : b.configuration ≡ opposite a.configuration

abbrev pub IsPaired : ℕ → List Trial → Type 0
IsPaired n [] = Unit
IsPaired n (a ∷ []) = ⊥
IsPaired n (a ∷ b ∷ trials) = IsPair n a b × IsPaired (n + 2) trials

IsPaired-append :
    (n : ℕ) (trials : List Trial) (a b : Trial)
    → IsPaired n trials
    → IsPair (n + length trials) a b
    → IsPaired n (trials ++ a ∷ b ∷ [])
IsPaired-append n [] a b h p =
    let zero_more : n + 0 ≡ n = omega arith in (subst (λ m. IsPair m a b) zero_more p, tt)
IsPaired-append n (x ∷ []) a b h p = absurd h
IsPaired-append n (x ∷ y ∷ trials) a b h p =
    let moved : n + length (x ∷ y ∷ trials) ≡ n + 2 + length trials = omega arith in
    (h.0, IsPaired-append (n + 2) trials a b h.1 (subst (λ m. IsPair m a b) moved p))

-- The task and the repetition of each trial.
abbrev pub slots : List Trial → List (String × ℕ)
slots [] = []
slots (t ∷ trials) = (t.task_id, t.repetition) ∷ slots trials

slots-append : (xs ys : List Trial) → slots (xs ++ ys) ≡ slots xs ++ slots ys
slots-append [] ys = refl
slots-append (x ∷ xs) ys = ap (λ l. (x.task_id, x.repetition) ∷ l) (slots-append xs ys)

-- Two for each repetition of a task, from `first` on.
abbrev pub rounds_of : String → ℕ → ℕ → List (String × ℕ)
rounds_of name first zero = []
rounds_of name first (suc count) = (name, first) ∷ (name, first) ∷ rounds_of name (first + 1) count

-- Two for each repetition from 1 to `count` of each task, in their order.
abbrev pub all_rounds : ℕ → List String → List (String × ℕ)
all_rounds count [] = []
all_rounds count (name ∷ ids) = rounds_of name 1 count ++ all_rounds count ids

module _ (sources : Dict Source) (guidance : String) (odd : String → ℕ → Bool) where
  -- The trial that follows `trials`, in the pair that follows `start`.
  abbrev trial_at :
      String → CorpusTask → ℕ → List Trial → List Trial → Configuration → Source → Trial
  trial_at name task repetition start trials configuration s = record {
    trial_id = numbered "t" (length trials + 1);
    pair_id = numbered "p" (length start / 2 + 1);
    task_id = name;
    partition = task.split;
    repetition = repetition;
    order = length trials;
    configuration = configuration;
    guidance = guidance;
    question = task.question;
    source = s;
  }

  add_trial-eq-ok :
      (name : String) (task : CorpusTask) (repetition : ℕ) (start trials next : List Trial)
      (configuration : Configuration)
      → add_trial sources guidance odd name task repetition
          (numbered "p" (length start / 2 + 1))
          trials
          configuration
        ≡ ok next
      → (s : Source) × (lookup task.source sources ≡ some s)
        × (next ≡ trials ++ trial_at name task repetition start trials configuration s ∷ [])
  unfolding add_trial
  add_trial-eq-ok name task repetition start trials next configuration h = ground arith

  swapped : (b : Bool) → (order_of b).1 ≡ opposite (order_of b).0
  swapped true = refl
  swapped false = refl

  one_more : (m n : ℕ) → m ≡ n + 1 → m + 1 ≡ n + 2
  one_more m n e = omega arith

  IsPair-trial_at :
      (name : String) (task : CorpusTask) (repetition : ℕ) (trials one : List Trial) (s s' : Source)
      (b : Bool)
      → s ≡ s'
      → length one ≡ length trials + 1
      → IsPair
          (length trials)
          (trial_at name task repetition trials trials (order_of b).0 s)
          (trial_at name task repetition trials one (order_of b).1 s')
  IsPair-trial_at name task repetition trials one s s' b same long = record {
    first = refl;
    second = long;
    first_id = refl;
    second_id = ap (numbered "t") (one_more (length one) (length trials) long);
    first_pair = refl;
    second_pair = refl;
    task = refl;
    repetition = refl;
    source = same;
    configurations = swapped b;
  }

  two_more :
      (name : String) (task : CorpusTask) (repetition : ℕ) (trials one next : List Trial)
      (s s' : Source) (b : Bool)
      → IsPaired 0 trials
      → one ≡ trials ++ trial_at name task repetition trials trials (order_of b).0 s ∷ []
      → next ≡ one ++ trial_at name task repetition trials one (order_of b).1 s' ∷ []
      → s ≡ s'
      → IsPaired 0 next
        × (length next ≡ length trials + 2)
        × (slots next ≡ slots trials ++ (name, repetition) ∷ (name, repetition) ∷ [])
  two_more name task repetition trials one next s s' b v made made' same =
      let x = trial_at name task repetition trials trials (order_of b).0 s in
      let y = trial_at name task repetition trials one (order_of b).1 s' in
      let long : length one ≡ length trials + 1 = ap length made ∙ length-append trials (x ∷ []) in
      let zero_more : 0 + length trials ≡ length trials = omega arith in
      let joined : next ≡ trials ++ x ∷ y ∷ [] =
        made' ∙ ap (λ l. l ++ y ∷ []) made ∙ append_assoc trials (x ∷ []) (y ∷ []) in
      let pair = IsPair-trial_at name task repetition trials one s s' b same long in
      (
        subst (IsPaired 0) (sym joined)
            (IsPaired-append 0 trials x y v (subst (λ m. IsPair m x y) (sym zero_more) pair)),
        ap length joined ∙ length-append trials (x ∷ y ∷ []),
        ap slots joined ∙ slots-append trials (x ∷ y ∷ []),
      )

  add_pair-IsPaired :
      (name : String) (task : CorpusTask) (repetition : ℕ) (trials next : List Trial)
      → add_pair sources guidance odd name task repetition trials ≡ ok next
      → IsPaired 0 trials
      → IsPaired 0 next
        × (length next ≡ length trials + 2)
        × (slots next ≡ slots trials ++ (name, repetition) ∷ (name, repetition) ∷ [])
  unfolding add_pair
  add_pair-IsPaired name task repetition trials next h v =
      let pair = numbered "p" (length trials / 2 + 1) in
      let order = order_of (odd name repetition) in
      let (one, first, h1) =
        >>=-eq-ok (add_trial sources guidance odd name task repetition pair trials order.0) _ h in
      let (s, found, made) = add_trial-eq-ok name task repetition trials trials one order.0 first in
      let (s', found', made') = add_trial-eq-ok name task repetition trials one next order.1 h1 in
      let same : s ≡ s' = ground (arith, found, found') in
      two_more name task repetition trials one next s s' (odd name repetition) v made made' same

  add_pairs-IsPaired :
      (name : String) (task : CorpusTask) (first count : ℕ) (trials next : List Trial)
      → add_pairs sources guidance odd name task first count trials ≡ ok next
      → IsPaired 0 trials
      → IsPaired 0 next
        × (length next ≡ length trials + 2 * count)
        × (slots next ≡ slots trials ++ rounds_of name first count)
  unfolding add_pairs
  add_pairs-IsPaired name task first zero trials next h v = (
    ground arith,
    ground arith,
    ap slots (sym (ok-injective h)) ∙ sym (append-nil (slots trials)),
  )
  add_pairs-IsPaired name task first (suc count) trials next h v =
      let (more, one, h1) = >>=-eq-ok (add_pair sources guidance odd name task first trials) _ h in
      let (w, long, laid) = add_pair-IsPaired name task first trials more one v in
      let (done, longer, others) = add_pairs-IsPaired name task (first + 1) count more next h1 w in
      let two = (name, first) ∷ (name, first) ∷ [] in
      (
        done,
        omega (arith, long, longer),
        others
            ∙ ap (λ l. l ++ rounds_of name (first + 1) count) laid
            ∙ append_assoc (slots trials) two (rounds_of name (first + 1) count),
      )

  add_tasks-IsPaired :
      (tasks : Dict CorpusTask) (count : ℕ) (ids : List String) (trials next : List Trial)
      → add_tasks sources guidance odd tasks count ids trials ≡ ok next
      → IsPaired 0 trials
      → IsPaired 0 next
        × (length next ≡ length trials + 2 * (length ids * count))
        × (slots next ≡ slots trials ++ all_rounds count ids)
  unfolding add_tasks
  add_tasks-IsPaired tasks count [] trials next h v = (
    ground arith,
    ground arith,
    ap slots (sym (ok-injective h)) ∙ sym (append-nil (slots trials)),
  )
  add_tasks-IsPaired tasks count (name ∷ ids) trials next h v =
      go (lookup name tasks) (λ more. add_tasks-IsPaired tasks count ids more next) h
    where
      go :
          (o : Option CorpusTask)
          → ((more : List Trial)
              → add_tasks sources guidance odd tasks count ids more ≡ ok next
              → IsPaired 0 more
              → IsPaired 0 next
                × (length next ≡ length more + 2 * (length ids * count))
                × (slots next ≡ slots more ++ all_rounds count ids))
          → elim o [
            | none ↦ err key_error
            | some task ↦ (do
              more ← add_pairs sources guidance odd name task 1 count trials
              add_tasks sources guidance odd tasks count ids more)
          ]
            ≡ ok next
          → IsPaired 0 next
            × (length next ≡ length trials + 2 * (suc (length ids) * count))
            × (slots next ≡ slots trials ++ (rounds_of name 1 count ++ all_rounds count ids))
      go none later e = cc
      go (some task) later e =
          let (more, one, e1) =
            >>=-eq-ok (add_pairs sources guidance odd name task 1 count trials) _ e in
          let (w, long, laid) = add_pairs-IsPaired name task 1 count trials more one v in
          let (done, longer, others) = later more e1 w in
          (
            done,
            grind (arith, long, longer),
            others
                ∙ ap (λ l. l ++ all_rounds count ids) laid
                ∙ append_assoc (slots trials) (rounds_of name 1 count) (all_rounds count ids),
          )

-- A plan consists of pairs, each of a task and repetition in both configurations, whose trials are
-- numbered in the order in which they run. There are two trials for each selected task and each
-- repetition from 1 to the count, in the order of the selected tasks, and at most 160 in all.
pub plan_trials-IsPaired :
    (odd : ℕ → String → ℕ → Bool) (encoded_size : List Trial → ℕ) (corpus : Corpus)
    (selected : List String) (all_tasks : Bool) (count seed : ℕ) (guidance : String)
    (trials : List Trial)
    → plan_trials odd encoded_size corpus selected all_tasks
        (int (pos count))
        (int (pos seed))
        guidance
      ≡ ok trials
    → IsPaired 0 trials
      × (slots trials
          ≡ all_rounds count (if all_tasks then sorted (keys corpus.tasks) else selected))
      × (length trials
          ≡ 2 * (length (if all_tasks then sorted (keys corpus.tasks) else selected) * count))
      × (length trials ≤ max_trials)
unfolding plan_trials checked_repetitions checked_seed
plan_trials-IsPaired odd encoded_size corpus selected all_tasks count seed guidance trials h =
    let (_, _, h1) =
      >>=-eq-ok (require (contains guidance guidance_modes) "unsupported_exploration_guidance") _
        h in
    let (n, counted, h2) = >>=-eq-ok (checked_repetitions (int (pos count))) _ h1 in
    let (number, _, h3) = >>=-eq-ok (checked_seed (int (pos seed))) _ h2 in
    let (_, _, h4) =
      >>=-eq-ok
        (require (if all_tasks then not (is_some_selected selected) else is_some_selected selected)
          "select_task_ids_or_explicit_all")
        _ h3 in
    let (_, _, h5) = >>=-eq-ok (require (distinct selected) "duplicate_task_selection") _ h4 in
    let (_, _, h6) = >>=-eq-ok corpus.valid _ h5 in
    let ids = if all_tasks then sorted (keys corpus.tasks) else selected in
    let (_, _, h7) =
      >>=-eq-ok (require (all (λ name. has name corpus.tasks) ids) "unknown_task_selection") _ h6 in
    let (_, small, h8) =
      >>=-eq-ok (require (leb (length ids * n * 2) max_trials) "plan_exceeds_160_trials") _ h7 in
    let (made, h9, h10) =
      >>=-eq-ok (add_tasks corpus.sources guidance (odd number) corpus.tasks n ids []) _ h8 in
    let (_, _, h11) =
      >>=-eq-ok (require (leb (encoded_size made) metadata_bytes) "plan_metadata_limit_exceeded") _
        h10 in
    let added : add_tasks corpus.sources guidance (odd number) corpus.tasks n ids [] ≡ ok trials =
      h9 ∙ h11 in
    let (paired, long, laid) =
      add_tasks-IsPaired corpus.sources guidance (odd number) corpus.tasks n ids [] trials added
        tt in
    let fits =
      require-eq-ok (leb (length ids * n * 2) max_trials) "plan_exceeds_160_trials" small in
    let same : n ≡ count = ground (arith, counted) in
    (
      paired,
      subst (λ m. slots trials ≡ all_rounds m ids) same laid,
      subst (λ m. length trials ≡ 2 * (length ids * m)) same (grind (arith, long)),
      grind (arith, long, fits),
    )
