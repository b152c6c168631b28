-- ===== src/Callbacks/Limits.antt =====
-- app/callbacks.py: the limits on the calls of models and of tools.
use diy_agent.Prelude.{
  ℕ, ◌+◌, ◌≤◌, ◌<◌, ◌≡◌, refl, sym, ap, ◌∙◌, max, String, Option, none, some, List, [], ◌∷◌, true,
  false, Json, Python, leb, inl, inr, Option-cases, Bool-cases, arith, if_true, if_false,
}
use diy_agent.Models.{Db}
use diy_agent.Store.Tables.{Result, ok, err}
use diy_agent.Callbacks.Handlers.{
  CallKind, CallbackError, raised, limit_exceeded, Progress, Callback, Times, Handled, no_progress,
  limit_of, count_of, count_call, check_cancelled, appended_or, reserve_invocation, after_reserve,
  admitted, open_model, on_chat_model_start, on_llm_end, open_tool, on_tool_start, on_tool_end,
  on_tool_error,
}
use diy_agent.Callbacks.Agent.{Call, Moment, handle, passed}

-- One for a start of a call of this kind.
abbrev pub starts_one : CallKind → Call → ℕ
starts_one CallKind.llm (Call.model_start call_id) = 1
starts_one CallKind.tool (Call.tool_start call_id serialized) = 1
starts_one kind call = 0

-- The number of starts of a kind.
abbrev pub starts : CallKind → List Call → ℕ
starts kind [] = 0
starts kind (call ∷ rest) = starts_one kind call + starts kind rest

module _ (py : Python) (loads : String → Option Json) (c : Callback) where
  appended_or-some :
      (failed done : Progress) (db : Db) (error : CallbackError) (r : Result Db)
      → (e : CallbackError) × ((appended_or failed done db (some error) r).0 ≡ some e)
  appended_or-some failed done db error (ok after) = (error, refl)
  appended_or-some failed done db error (err e) = (raised e, refl)

  reserve_full :
      (kind : CallKind) (p : Progress) (db : Db) (now : ℕ)
      → leb (limit_of c kind) (count_of p kind) ≡ true
      → (e : CallbackError) × ((reserve_invocation c kind p db now).0 ≡ some e)
  unfolding reserve_invocation
  reserve_full kind p db now full =
      let (e, refused) = appended_or-some p p db (limit_exceeded kind (limit_of c kind)) _ in
      (e, ap (λ (h : Handled). h.0) (if_true _ _ full) ∙ refused)

  reserve_room :
      (kind : CallKind) (p : Progress) (db : Db) (now : ℕ)
      → leb (limit_of c kind) (count_of p kind) ≡ false
      → reserve_invocation c kind p db now ≡ (none, count_call kind p, db)
  unfolding reserve_invocation
  reserve_room kind p db now room = if_false _ _ room

  after_reserve-refused :
      (rest : Progress → Db → Handled) (h : Handled) {e : CallbackError}
      → h.0 ≡ some e
      → ¬ ((after_reserve rest h).0 ≡ none)
  after_reserve-refused rest (some error, q, after) refused went = ground arith
  after_reserve-refused rest (none, q, after) refused went = ground arith

  free_admitted :
      (kind : CallKind) (p : Progress) (db : Db) (t : Times) (rest : Progress → Db → Handled)
      → check_cancelled c db t.first_at ≡ none
      → admitted c kind p db t rest
        ≡ after_reserve rest (reserve_invocation c kind p db t.second_at)
  unfolding admitted
  free_admitted kind p db t rest free = rw (free, admitted) refl

  -- A start that goes through was below the limit, and is counted.
  admitted-eq-none :
      (kind : CallKind) (p : Progress) (db : Db) (t : Times) (rest : Progress → Db → Handled)
      → (admitted c kind p db t rest).0 ≡ none
      → (count_of p kind < limit_of c kind)
        × (admitted c kind p db t rest ≡ rest (count_call kind p) db)
  unfolding admitted
  admitted-eq-none kind p db t rest h = elim (Option-cases (check_cancelled c db t.first_at)) [
    | inr (error, e) ↦ absurd (ground (arith, rw (e, admitted) at h))
    | inl free ↦
        let on = free_admitted kind p db t rest free in
        elim (Bool-cases (leb (limit_of c kind) (count_of p kind))) [
          | inl full ↦
              let (e, refused) = reserve_full kind p db t.second_at full in
              absurd (after_reserve-refused rest _ refused (sym (ap (λ (x : Handled). x.0) on) ∙ h))
          | inr room ↦
              (ground arith, on ∙ ap (after_reserve rest) (reserve_room kind p db t.second_at room))
        ]
  ]

  -- The rest of a start leaves the counts.
  open_model-counts :
      (call_id : ℕ) (t : Times) (p : Progress) (db : Db) (kind : CallKind)
      → count_of (open_model c call_id t p db).1 kind ≡ count_of p kind
  unfolding open_model
  open_model-counts call_id t p db kind = ground arith

  open_tool-counts :
      (call_id : ℕ) (name : String) (t : Times) (p : Progress) (db : Db) (kind : CallKind)
      → count_of (open_tool c call_id name t p db).1 kind ≡ count_of p kind
  unfolding open_tool
  open_tool-counts call_id name t p db kind = ground arith

  -- What a call that goes through does to the count of a kind.
  abbrev Counts : CallKind → Call → Progress → Progress → Type 0
  Counts kind call p q =
      (count_of q kind ≡ starts_one kind call + count_of p kind)
      × (starts_one kind call + count_of p kind ≤ max (limit_of c kind) (count_of p kind))

  model_start-Counts :
      (call_id : ℕ) (p q : Progress) (kind : CallKind)
      → p.llm_call_count < c.max_llm_calls
      → count_of q kind ≡ count_of (count_call CallKind.llm p) kind
      → Counts kind (Call.model_start call_id) p q
  model_start-Counts call_id p q CallKind.llm room e = (ground arith, ground arith)
  model_start-Counts call_id p q CallKind.tool room e = (ground arith, ground arith)

  tool_start-Counts :
      (call_id : ℕ) (serialized : Json) (p q : Progress) (kind : CallKind)
      → p.tool_call_count < c.max_tool_calls
      → count_of q kind ≡ count_of (count_call CallKind.tool p) kind
      → Counts kind (Call.tool_start call_id serialized) p q
  tool_start-Counts call_id serialized p q CallKind.llm room e = (ground arith, ground arith)
  tool_start-Counts call_id serialized p q CallKind.tool room e = (ground arith, ground arith)

  -- A call that goes through counts, and only below the limit.
  handle-Counts :
      (call : Call) (p : Progress) (db : Db) (t : Times) (kind : CallKind)
      → (handle py loads c call p db t).0 ≡ none
      → Counts kind call p (handle py loads c call p db t).1
  unfolding handle on_chat_model_start on_llm_end on_tool_start on_tool_end on_tool_error
  handle-Counts (Call.model_start call_id) p db t kind h =
      let (room, e) = admitted-eq-none CallKind.llm p db t (open_model c call_id t) h in
      model_start-Counts call_id p (on_chat_model_start c call_id p db t).1 kind room (
        ap (λ (x : Handled). count_of x.1 kind) e
        ∙ open_model-counts call_id t (count_call CallKind.llm p) db kind)
  handle-Counts (Call.model_end call_id) p db t CallKind.llm h = (ground arith, ground arith)
  handle-Counts (Call.model_end call_id) p db t CallKind.tool h = (ground arith, ground arith)
  handle-Counts (Call.tool_start call_id serialized) p db t kind h =
      let (room, e) = admitted-eq-none CallKind.tool p db t (open_tool c call_id _ t) h in
      tool_start-Counts call_id serialized p (on_tool_start c py call_id serialized p db t).1 kind
        room
        (ap (λ (x : Handled). count_of x.1 kind) e
          ∙ open_tool-counts call_id _ t (count_call CallKind.tool p) db kind)
  handle-Counts (Call.tool_end call_id output) p db t CallKind.llm h = (ground arith, ground arith)
  handle-Counts (Call.tool_end call_id output) p db t CallKind.tool h = (ground arith, ground arith)
  handle-Counts (Call.tool_error call_id error_type) p db t CallKind.llm h =
      (ground arith, ground arith)
  handle-Counts (Call.tool_error call_id error_type) p db t CallKind.tool h =
      (ground arith, ground arith)

  passed_counted :
      (moments : List Moment) (p : Progress) (db : Db) (kind : CallKind)
      → starts kind (passed py loads c moments p db) + count_of p kind
        ≤ max (limit_of c kind) (count_of p kind)
  unfolding passed
  passed_counted [] p db kind = ground arith
  passed_counted (m ∷ rest) p db kind =
      let h = handle py loads c m.call p (m.world db) m.times in
      elim (Option-cases h.0) [
        | inr (error, e) ↦ rw (e, passed) (ground arith)
        | inl went ↦
            let here = handle-Counts m.call p (m.world db) m.times kind went in
            let later = passed_counted rest h.1 h.2 kind in rw (went, passed) (ground arith)
      ]

  -- Whatever the agent calls and in whatever order, and whatever else happens to the tables
  -- between its calls, a new handler lets no more than `max_llm_calls` calls of models and no more
  -- than `max_tool_calls` calls of tools start.
  pub passed_bounded :
      (moments : List Moment) (db : Db) (kind : CallKind)
      → starts kind (passed py loads c moments no_progress db) ≤ limit_of c kind
  passed_bounded moments db CallKind.llm =
      let most = passed_counted moments no_progress db CallKind.llm in omega arith
  passed_bounded moments db CallKind.tool =
      let most = passed_counted moments no_progress db CallKind.tool in omega arith
