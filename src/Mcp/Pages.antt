-- ===== src/Mcp/Pages.antt =====
-- Numbers and pages of the event store (internal/mcp/sqlite_events.go).
use tgup.Prelude.{
  ℕ, zero, suc, ◌+◌, ◌≡◌, ◌<◌, ◌≤◌, refl, sym, ap, ◌∙◌, Bool, true, false, ◌||◌, List, [], ◌∷◌,
  ◌++◌, map, length, take, drop, keep, All, All-append, All-imp, ltb, if◌then◌else◌, arith,
  Bool-cases, inl, inr,
}
use tgup.Prelude.Text.{Text, codes, text_eq, text_eq_iff}
use tgup.Prelude.Int.{ℤ}
use tgup.Errors.{Result, ok, err}
use tgup.Mcp.Events.{
  Event, EventRow, EventStore, Db, works, fails, of_job, max_seq, notify, append, limit_of,
  selected, listed, list,
}
use mathlib.Core.Path.{fun_ext}
use tgup.Mcp.Paging.{is_after, Before, Rising, rest_after, Rising-append}

abbrev matches_of : Text → EventRow → Bool
matches_of job row = text_eq job (codes "") || of_job job row

abbrev number_of : Text → EventRow → ℕ
number_of job row = if text_eq job (codes "") then row.id else row.event.seq

-- Ids rise along the table and stay below the next one, and the numbers of each job's events rise.
pub record IsNumbered (s : EventStore) : Type 0 where
  pub ids : Rising (λ row. true) (λ (row : EventRow). row.id) s.rows
  pub below : All (λ row. row.id < s.next_id) s.rows
  pub seqs : (job : Text) → Rising (of_job job) (λ (row : EventRow). row.event.seq) s.rows

seq-max_seq :
    (job : Text) (rows : List EventRow)
    → All (λ row. of_job job row ≡ true → row.event.seq ≤ max_seq job rows) rows
unfolding max_seq
seq-max_seq job [] = tt
seq-max_seq job (row ∷ rows) = (
  (λ h. ground arith),
  All-imp (λ r. of_job job r ≡ true → r.event.seq ≤ max_seq job rows)
      (λ r. of_job job r ≡ true → r.event.seq ≤ max_seq job (row ∷ rows))
      (λ r k h. ground (arith, k h)) rows (seq-max_seq job rows),
)

same_job :
    (job other : Text) (row : EventRow)
    → of_job job row ≡ true
    → text_eq other job ≡ true
    → of_job other row ≡ true
unfolding of_job
same_job job other row a b = ground (
  arith,
  text_eq_iff row.event.job_id job,
  text_eq_iff other job,
  text_eq_iff row.event.job_id other,
)

-- Appending an event keeps the numbering, whether the statement works or fails: its number is greater
-- than that of every earlier event of its job, and its row's id than every earlier id.
pub append-IsNumbered :
    (db : Db) (e : Event) (s : EventStore) → IsNumbered s → IsNumbered (append db e s).0
unfolding append notify
append-IsNumbered (fails x) e s h = h
append-IsNumbered works e s h =
    let new : EventRow = record {
      id = s.next_id;
      event = record e { seq = max_seq e.job_id s.rows + 1 };
    } in
    record {
      ids =
          Rising-append (λ row. true) (λ row. row.id) s.rows new h.ids
            (All-imp (λ row. row.id < s.next_id)
              (λ row. Before (λ row. true) (λ row. row.id) row new) (λ row k a b. k) s.rows
              h.below);
      below =
          All-append (λ row. row.id < s.next_id + 1) s.rows (new ∷ [])
            (All-imp (λ row. row.id < s.next_id) (λ row. row.id < s.next_id + 1)
              (λ row k. omega arith) s.rows h.below)
            (omega arith, tt);
      seqs = λ job.
          Rising-append (of_job job) (λ row. row.event.seq) s.rows new (h.seqs job)
            (All-imp (λ row. of_job e.job_id row ≡ true → row.event.seq ≤ max_seq e.job_id s.rows)
              (λ row. Before (of_job job) (λ row. row.event.seq) row new)
              (λ row k a b. let c = k (same_job job e.job_id row a b) in omega arith) s.rows
              (seq-max_seq e.job_id s.rows));
    }

page_in : Result (List Event × Bool) → List Event × Bool
page_in (ok x) = x
page_in (err e) = ([], false)

ok_pair :
    {xs ys : List Event} {b c : Bool}
    → ◌≡◌ {A = Result (List Event × Bool)} (ok (xs, b)) (ok (ys, c))
    → (xs ≡ ys) × (b ≡ c)
unfolding page_in
ok_pair h = (ap (λ x. (page_in x).0) h, ap (λ x. (page_in x).1) h)

-- The events that a listing without a limit would give.
unfoldable pub events_after : Text → ℕ → EventStore → List Event
unfolding selected listed
events_after job since s = map (listed job) (keep (selected job since) s.rows)

last_of_map :
    {A B : Type 0} (f : A → B) (zs : List A) (xs : List B) (e : B)
    → map f zs ≡ xs ++ e ∷ []
    → (ws : List A) × (r : A) × (zs ≡ ws ++ r ∷ []) × (f r ≡ e)
last_of_map f [] [] e h = ground (arith, h)
last_of_map f [] (x ∷ xs) e h = ground (arith, h)
last_of_map f (z ∷ []) [] e h = ([], z, refl, ground (arith, h))
last_of_map f (z ∷ w ∷ zs) [] e h = ground (arith, h)
last_of_map f (z ∷ zs) (x ∷ xs) e h =
    let (ws, r, eq, v) = last_of_map f zs xs e (ground (arith, h)) in
    (z ∷ ws, r, ap (λ l. z ∷ l) eq, v)

take-map : {A B : Type 0} (f : A → B) (n : ℕ) (xs : List A) → take n (map f xs) ≡ map f (take n xs)
take-map f zero xs = refl
take-map f (suc n) [] = refl
take-map f (suc n) (x ∷ xs) = ap (λ l. f x ∷ l) (take-map f n xs)

take-take : {A : Type 0} (n : ℕ) (xs : List A) → take n (take (suc n) xs) ≡ take n xs
take-take zero xs = refl
take-take (suc n) [] = refl
take-take (suc n) (x ∷ xs) = ap (λ l. x ∷ l) (take-take n xs)

take_more :
    {A : Type 0} (n : ℕ) (xs : List A)
    → ltb n (length (take (suc n) xs)) ≡ ltb 0 (length (drop n xs))
take_more zero [] = refl
take_more zero (x ∷ xs) = ground arith
take_more (suc n) [] = ground arith
take_more (suc n) (x ∷ xs) = ground (arith, take_more n xs)

take-drop : {A : Type 0} (n : ℕ) (xs : List A) → take n xs ++ drop n xs ≡ xs
take-drop zero xs = refl
take-drop (suc n) [] = refl
take-drop (suc n) (x ∷ xs) = ap (λ l. x ∷ l) (take-drop n xs)

drop-map : {A B : Type 0} (f : A → B) (n : ℕ) (xs : List A) → drop n (map f xs) ≡ map f (drop n xs)
drop-map f zero xs = refl
drop-map f (suc n) [] = refl
drop-map f (suc n) (x ∷ xs) = drop-map f n xs

snoc-append : {A : Type 0} (ws : List A) (r : A) (ys : List A) → (ws ++ r ∷ []) ++ ys ≡ ws ++ r ∷ ys
snoc-append [] r ys = refl
snoc-append (w ∷ ws) r ys = ap (λ l. w ∷ l) (snoc-append ws r ys)

selected-is_after :
    (job : Text) (since : ℕ) (row : EventRow)
    → selected job since row ≡ is_after (matches_of job) (number_of job) since row
unfolding selected
selected-is_after job since row = ground arith

listed-seq : (job : Text) (row : EventRow) → (listed job row).seq ≡ number_of job row
unfolding listed
listed-seq job row = ground arith

module _ (m m' : EventRow → Bool) (n n' : EventRow → ℕ) where
  Rising-imp :
      ((a b : EventRow) → Before m n a b → Before m' n' a b)
      → (rows : List EventRow) → Rising m n rows
      → Rising m' n' rows
  Rising-imp f [] h = tt
  Rising-imp f (a ∷ rows) (h, hs) =
      (All-imp (Before m n a) (Before m' n' a) (f a) rows h, Rising-imp f rows hs)

numbered-Rising :
    (s : EventStore) (job : Text) → IsNumbered s → Rising (matches_of job) (number_of job) s.rows
numbered-Rising s job h = elim (Bool-cases (text_eq job (codes ""))) [
  | inl e ↦
      Rising-imp (λ row. true) (matches_of job) (λ row. row.id) (number_of job)
        (λ a b k p q. let less = k refl refl in ground (arith, e, less)) s.rows h.ids
  | inr e ↦
      Rising-imp (of_job job) (matches_of job) (λ row. row.event.seq) (number_of job)
        (λ a b k p q.
          let less = k (ground (arith, e, p)) (ground (arith, e, q)) in ground (arith, e, less))
        s.rows (h.seqs job)
]

-- The rows after the last one of a page are those that the page left out.
after_page :
    (s : EventStore) (job : Text) (since : ℕ) (ws : List EventRow) (r : EventRow)
    (ys : List EventRow)
    → IsNumbered s
    → keep (selected job since) s.rows ≡ ws ++ r ∷ ys
    → keep (selected job (listed job r).seq) s.rows ≡ ys
after_page s job since ws r ys h e =
    ap (λ n. keep (selected job n) s.rows) (listed-seq job r)
    ∙ ap (λ f. keep f s.rows) (fun_ext (selected-is_after job (number_of job r)))
    ∙ rest_after (matches_of job) (number_of job) since s.rows ws r ys (numbered-Rising s job h)
        (ap (λ f. keep f s.rows) (fun_ext (λ row. sym (selected-is_after job since row))) ∙ e)

-- Listing page by page loses no event and repeats none: the events after a number are those of the
-- page and those after the number of the page's last event, and `hasMore` says whether there are any
-- of these. (The statement works, and the table is numbered as appending numbers it.)
pub list_pages :
    (s : EventStore) (job : Text) (since : ℕ) (limit : ℤ) (page : List Event) (more : Bool)
    (xs : List Event) (e : Event)
    → IsNumbered s
    → list works job since limit s ≡ ok (page, more)
    → page ≡ xs ++ e ∷ []
    → (events_after job since s ≡ page ++ events_after job e.seq s)
      × (more ≡ ltb 0 (length (events_after job e.seq s)))
unfolding list events_after
list_pages s job since limit page more xs e h eq last =
    let n = limit_of limit in
    let rows = keep (selected job since) s.rows in
    let (page_is, more_is) = ok_pair eq in
    let taken : map (listed job) (take n rows) ≡ page =
      sym (take-map (listed job) n rows) ∙ sym (take-take n (map (listed job) rows)) ∙ page_is in
    let (ws, r, split, number) = last_of_map (listed job) (take n rows) xs e (taken ∙ last) in
    let whole : rows ≡ ws ++ r ∷ drop n rows =
      sym (take-drop n rows) ∙ ap (λ l. l ++ drop n rows) split ∙ snoc-append ws r (drop n rows) in
    let rest : keep (selected job e.seq) s.rows ≡ drop n rows =
      ap (λ v. keep (selected job v.seq) s.rows) (sym number)
      ∙ after_page s job since ws r (drop n rows) h whole in
    let tail : map (listed job) (keep (selected job e.seq) s.rows)
        ≡ drop n (map (listed job) rows) =
      ap (map (listed job)) rest ∙ sym (drop-map (listed job) n rows) in
    (
      sym (take-drop n (map (listed job) rows))
          ∙ ap (λ l. l ++ drop n (map (listed job) rows)) (take-map (listed job) n rows ∙ taken)
          ∙ ap (λ l. page ++ l) (sym tail),
      sym more_is ∙ take_more n (map (listed job) rows) ∙ ap (λ l. ltb 0 (length l)) (sym tail),
    )
