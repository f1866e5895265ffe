-- ===== src/Learning/Lesson.antt =====
-- domain/learning/lesson.py, application/learning/replay.py and application/learning/approval.py:
-- lessons, their replay over past decisions, and the decisions of humans about them. `casefold` is
-- that of the ASCII letters, and the ids that `uuid4` makes are arguments.
use aistock.Common.{
  leb, ◌+◌, ℕ, ◌≡◌, refl, Bool, true, false, ◌&&◌, ◌||◌, not, List, [], ◌∷◌, ◌++◌, map, arith, ltb,
  nat_eq, if◌then◌else◌, Text, length, filter, is_empty, ◌==◌, ℕ_eq, text_eq, pair_eq, Result, ok,
  raise, value_error, type_error, multiple_results_found, lookup_error, ◌>>=◌, ◌>>◌, raise_if,
  ok-injective, >>-eq-ok, sym, subst,
}
use aistock.Decimal.{
  Decimal, Number, not_decimal, whole, sub, div, le, max_of, sum_from, decimal_arg,
}
use aistock.Domain.Ids.{Uuid, is_space, is_blank}
use aistock.Domain.Time.{Datetime, Instant, require_aware}
use aistock.Dict.{Dict, contains, lookup-insert, insert}
use aistock.Learning.Policy.{HumanActor, require_authenticated_human}
use aistock.Learning.Outcome.{ErrorCategory}

pub data LessonStatus : Type 0 where
  candidate_lesson approved_lesson rejected_lesson : LessonStatus

pub record CandidateLesson : Type 0 where
  pub id : Uuid
  pub attribution_id : Uuid
  pub scope : Text
  pub statement : Text
  pub evidence : List Text
  pub counter_evidence : List Text
  pub confidence : Decimal
  pub replay_delta : Decimal
  pub creator : Text
  pub created_at : Instant
  pub category : ErrorCategory
  pub status : LessonStatus

-- The arguments of the constructor.
pub record LessonArgs : Type 0 where
  pub id : Uuid
  pub attribution_id : Uuid
  pub scope : Text
  pub statement : Text
  pub evidence : List Text
  pub counter_evidence : List Text
  pub confidence : Number
  pub replay_delta : Number
  pub creator : Text
  pub created_at : Datetime
  pub category : ErrorCategory
  pub status : LessonStatus

abbrev is_decimal : Number → Bool
is_decimal not_decimal = false
is_decimal _ = true

-- The constructor with its `__post_init__`.
unfoldable pub candidate_lesson_of : LessonArgs → Result CandidateLesson
candidate_lesson_of a = do
  raise_if (is_blank a.scope || is_blank a.statement || is_blank a.creator)
      (value_error "lesson scope, statement, and creator are required")
  raise_if (is_empty a.evidence) (value_error "lesson evidence is required")
  raise_if (not (is_decimal a.confidence) || not (is_decimal a.replay_delta))
      (type_error "lesson confidence and replay delta must use Decimal")
  c ← decimal_arg "lesson confidence must be between zero and one" a.confidence
  raise_if (not (le (whole 0) c && le c (whole 1)))
      (value_error "lesson confidence must be between zero and one")
  d ← decimal_arg "lesson replay delta must be finite" a.replay_delta
  t ← require_aware a.created_at
  ok (record {
    id = a.id;
    attribution_id = a.attribution_id;
    scope = a.scope;
    statement = a.statement;
    evidence = a.evidence;
    counter_evidence = a.counter_evidence;
    confidence = c;
    replay_delta = d;
    creator = a.creator;
    created_at = t;
    category = a.category;
    status = a.status;
  })

-- The words of a text that begins with the letters of `word`, the last first.
abbrev push_word : Text → List Text → List Text
push_word [] words = words
push_word (c ∷ cs) words = (c ∷ cs) ∷ words

-- `text.split()`
unfoldable pub split_from : (word : Text) → Text → List Text
split_from word [] = push_word word []
split_from word (c ∷ text) =
    let ended = split_from [] text in
    let longer = split_from (word ++ c ∷ []) text in
    if is_space c then push_word word ended else longer

-- `" ".join(words)`
unfoldable pub join_words : List Text → Text
join_words [] = []
join_words (w ∷ []) = w
join_words (w ∷ v ∷ words) = w ++ 32 ∷ join_words (v ∷ words)

-- `text.casefold()` of the letters of ASCII
abbrev casefold : Text → Text
casefold = map (λ (c : ℕ). if leb b'A' c && leb c b'Z' then c + 32 else c)

abbrev pub normal_text : Text → Text
normal_text t = join_words (split_from [] (casefold t))

abbrev pub duplicate_key : CandidateLesson → Text × Text
duplicate_key l = (normal_text l.scope, normal_text l.statement)

abbrev pub LessonBook : Type 0
LessonBook = Dict (Text × Text) CandidateLesson

-- `LessonBook.add`
unfoldable pub add_lesson : LessonBook → CandidateLesson → Result LessonBook
add_lesson book l = do
  raise_if (contains (duplicate_key l) book) (value_error "duplicate candidate lesson")
  ok (insert (duplicate_key l) l book)

pub record HistoricalDecision : Type 0 where
  pub id : Uuid
  pub decision_time : Instant
  pub score : Decimal

pub record ReplayRun : Type 0 where
  pub id : Uuid
  pub lesson_id : Uuid
  pub decision_ids : List Uuid
  pub baseline_score : Decimal
  pub candidate_score : Decimal
  pub delta : Decimal

abbrev pub is_eligible : CandidateLesson → HistoricalDecision → Bool
is_eligible l d = ltb l.created_at d.decision_time

-- `sum(scores, Decimal("0")) / Decimal(len(scores))`
abbrev mean : List Decimal → Decimal
mean scores = div (sum_from (whole 0) scores) (whole (length scores))

-- `replay_lesson`
unfoldable pub replay_lesson : (id : Uuid) → CandidateLesson → List HistoricalDecision → ReplayRun
replay_lesson id l decisions =
    let eligible = filter (is_eligible l) decisions in
    let baseline = if is_empty eligible then whole 0 else mean (map (λ d. d.score) eligible) in
    let candidate_score =
      if is_empty eligible
      then baseline
      else mean (map (λ (d : HistoricalDecision). max_of d.score (whole 0)) eligible) in
    record {
      id = id;
      lesson_id = l.id;
      decision_ids = map (λ d. d.id) eligible;
      baseline_score = baseline;
      candidate_score = candidate_score;
      delta = sub candidate_score baseline;
    }

-- A row of the table of decisions about lessons.
pub record LessonDecision : Type 0 where
  pub lesson_id : Uuid
  pub actor_id : Text
  pub action : Text
  pub rationale : Text

-- The lesson of an attribution of an outcome that a weekly review has computed.
pub record ReviewedLesson : Type 0 where
  pub review_id : Uuid
  pub lesson_id : Uuid

-- `record_lesson_decision`, over the rows of the joined tables, which must hold the lesson once.
unfoldable pub record_lesson_decision :
    List ReviewedLesson
    → List LessonDecision
    → (review_id lesson_id : Uuid) → HumanActor
    → (action rationale : Text) → Result (LessonDecision × List LessonDecision)
record_lesson_decision joined decisions review_id lesson_id actor action rationale = do
  require_authenticated_human actor
  let rows =
      filter (λ (r : ReviewedLesson). nat_eq r.lesson_id lesson_id && nat_eq r.review_id review_id)
        joined
  raise_if (ltb 1 (length rows)) multiple_results_found
  raise_if (is_empty rows) (lookup_error "lesson not found in weekly review")
  let d : LessonDecision = record {
    lesson_id = lesson_id;
    actor_id = actor.id;
    action = action;
    rationale = rationale;
  }
  ok (d, decisions ++ d ∷ [])

same_pair : (p q : Text × Text) → p ≡ q → (p == q) ≡ true
same_pair p q h = (pair_eq.beq_iff p q).1 h

contains_inserted :
    (k : Text × Text) (l : CandidateLesson) (book : LessonBook)
    → contains k (insert k l book) ≡ true
contains_inserted k l book = ground (arith, lookup-insert k k l book, same_pair k k refl)

-- A lesson that a book has taken is refused as a duplicate when another one comes with a scope and a
-- statement of the same words, whatever their letter case and the space between them.
pub add_lesson_duplicate :
    (book after : LessonBook) (l m : CandidateLesson)
    → add_lesson book l ≡ ok after
    → duplicate_key m ≡ duplicate_key l
    → add_lesson after m ≡ raise (value_error "duplicate candidate lesson")
unfolding add_lesson
add_lesson_duplicate book after l m h same =
    let (_, last) = >>-eq-ok (raise_if (contains (duplicate_key l) book) _) _ h in
    let there : contains (duplicate_key m) after ≡ true =
      subst (λ (b : LessonBook). contains (duplicate_key m) b ≡ true) (ok-injective last)
        (subst (λ (k : Text × Text). contains k (insert (duplicate_key l) l book) ≡ true) (sym same)
          (contains_inserted (duplicate_key l) l book)) in
    rw there refl
