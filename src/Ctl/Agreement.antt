-- ===== src/Ctl/Agreement.antt =====
-- `status` and `diff` on one answer of the diff endpoint.
use cluster_recorder.Prelude.{
  ◌≡◌, refl, ◌∙◌, sym, String, not, some, arith, str_eq, any, length, ◌==◌, Bool-cases, inl, inr,
}
use cluster_recorder.Prelude.Order.{text_order}
use cluster_recorder.Dict.{Dict, get}
use cluster_recorder.Sample.{Time}
use cluster_recorder.Store.Db.{Db, ok}
use cluster_recorder.Api.{SourceDiff, sources}
use cluster_recorder.Api.Requests.{Server, get_diff, handle}
use cluster_recorder.Api.Diffs.{IsNoted, Answered, api_only, agent_only, both, diff-Answered}
use cluster_recorder.Ctl.{is_changed_field, changed_names}
use cluster_recorder.Ctl.Print.{any_changed, matches_baseline}
use cluster_recorder.Ctl.Verdicts.{is_different, count-changed_names}

any_changed_noted :
    (s : SourceDiff) → IsNoted s → any_changed (some s) ≡ any is_changed_field s.fields
unfolding any_changed
any_changed_noted s n = elim (Bool-cases (str_eq s.note "")) [
  | inl plain ↦ rw plain refl
  | inr noted ↦ rw noted (sym (n noted))
]

matches_lem : (d : Dict SourceDiff) → Answered d → matches_baseline d ≡ not (is_different d)
unfolding matches_baseline any_changed get
matches_lem d (api_only s n) = ground (arith, any_changed_noted s n)
matches_lem d (agent_only t n) = ground (arith, any_changed_noted t n)
matches_lem d (both s t n m) = ground (arith, any_changed_noted s n, any_changed_noted t m)

-- Of one answer of the diff endpoint, whichever statements failed, `diff` says that the node matches its
-- baseline exactly if `status` finds no field that differs.
pub status_agrees :
    (s : Server) (now : Time) (node : String) (db : Db) (d : Dict SourceDiff)
    → (handle s now (get_diff node "") db).0 ≡ ok (sources d)
    → matches_baseline d ≡ (length (changed_names d) == 0)
unfolding handle
status_agrees s now node db d e =
    matches_lem d (diff-Answered "" node db d e) ∙ sym (count-changed_names d)
