-- ===== src/Batch/Results/Printing.antt =====
-- fifo.c and sjf.c: the jobs as they are read, and the lines that are printed of them.
use os2016spring.Base.{
  ℕ, ◌≡◌, refl, sym, ap, ◌∙◌, List, [], ◌∷◌, ◌++◌, append_assoc, append-nil, map,
}
use os2016spring.Os.{Event, Trace, Os}
use os2016spring.Qsort.{Qsort}
use os2016spring.Qsort.Unique.{Spread-of_map}
use os2016spring.Results.{facts, reports, says, Truthful, IsTold}
use os2016spring.Results.Books.{Books-silent, Books-new}
use os2016spring.Batch.{Data, Line, State, cmp, read_file, start, print_results}
use os2016spring.Batch.Invariant.{task}
use os2016spring.Batch.Input.{start-IsValid, IsFresh-input, completions-print_results}
use os2016spring.Batch.Results.{left, result, IsRecorded}

module _ {os : Os} where
  pub start-Recorded :
      (q : Qsort Data) (input : List Line) → IsRecorded os (start (q.sort cmp (read_file 0 input)))
  start-Recorded q input =
      let jobs = q.sort cmp (read_file 0 input) in
      record {
        books =
            Books-new (λ (d : Data). d.pipe) os jobs
              (Spread-of_map task (λ x. x.pipe) jobs (start-IsValid q input).accounts.apart);
        fresh = IsFresh-input q input;
        rest_fresh = tt;
        unprinted = refl;
      }

-- Printing prints the lines of the finished jobs, and is no other event.
reports-print_results :
    (ds : List Data) (t : Trace) → reports (print_results ds t) ≡ reports t ++ map result ds
unfolding print_results
reports-print_results [] t = sym (append-nil _)
reports-print_results (d ∷ ds) t =
    reports-print_results ds (Event.print_result d.pid d.started_at d.finished_at ∷ t)
    ∙ append_assoc (reports t) _ _

facts-print_results :
    (os : Os) (ds : List Data) (t : Trace) (p : ℕ) → facts os (print_results ds t) p ≡ facts os t p
unfolding print_results
facts-print_results os [] t p = refl
facts-print_results os (d ∷ ds) t p =
    facts-print_results os ds (Event.print_result d.pid d.started_at d.finished_at ∷ t) p

Truthful-print_results :
    (os : Os) (ds : List Data) (t : Trace) → Truthful os t → Truthful os (print_results ds t)
unfolding print_results
Truthful-print_results os [] t h = h
Truthful-print_results os (d ∷ ds) t h =
    Truthful-print_results os ds (Event.print_result d.pid d.started_at d.finished_at ∷ t) h

pub print_results-IsTold :
    (os : Os) (s : State) → IsRecorded os s → IsTold os (print_results s.finished s.trace)
print_results-IsTold os s r =
    let done = print_results s.finished s.trace in
    let same =
      Books-silent {t' = done} (left s.forked s.unforked)
        (facts-print_results os s.finished s.trace) (completions-print_results s.finished s.trace)
        (Truthful-print_results os s.finished s.trace) r.books in
    (
      ap (map says) (
            reports-print_results s.finished s.trace
            ∙ ap (λ l. l ++ map result s.finished) r.unprinted)
          ∙ same.results,
      same.truthful,
    )
