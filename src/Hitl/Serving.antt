-- ===== src/Hitl/Serving.antt =====
-- api/routes/exceptions.py: the helpers that the handlers are made of: a guard, the fetch of the record, the
-- replies that are kept for a retry, the write with its audit event, and the roll-up of the parent case, less
-- what it publishes.
use asoe.Prelude.{
  ◌-◌, String, Bool, true, ◌&&◌, not, Option, none, some, List, [], ◌∷◌, ◌++◌, map, str_eq, ltb,
  keep_if, if◌then◌else◌,
}
use asoe.Prelude.Dict.{lookup, insert}
use asoe.Prelude.Results.{Result, ok, err}
use asoe.Records.{LifecycleState, ExceptionStore}
use asoe.Cases.{StoreError}
use asoe.Cases.Resolver.{Rollup, recompute_case_status}
use asoe.Hitl.{
  Reviewed, PolicyKey, AuditNote, Call, ReplyKey, CachedReply, Desk, HitlError, Outcome, HitlPort,
  not_found, malformed_key, idempotency_conflict, case_error,
}

-- a guard that raises
unfoldable pub check : Bool → HitlError → Desk → Outcome → Outcome
check holds e d next = if holds then next else (err e, d)

abbrev pub of_review_tenant : String → Option Reviewed → Option Reviewed
of_review_tenant tenant none = none
of_review_tenant tenant (some r) = if str_eq r.child.tenant_id tenant then some r else none

unfoldable pub found : Call → Desk → Option Reviewed
found c d = of_review_tenant c.tenant_id (lookup c.exception_id d.reviews)

-- `_get_or_404`
unfoldable pub with_review : Desk → (Reviewed → Outcome) → Option Reviewed → Outcome
with_review d go none = (err not_found, d)
with_review d go (some r) = go r

abbrev pub same_reply_key : ReplyKey → ReplyKey → Bool
same_reply_key j k =
    str_eq j.tenant_id k.tenant_id
    && str_eq j.exception_id k.exception_id
    && str_eq j.user_sub k.user_sub
    && str_eq j.key k.key

abbrev pub reply_key_of : Call → String → ReplyKey
reply_key_of c k = record {
  tenant_id = c.tenant_id;
  exception_id = c.exception_id;
  user_sub = c.user.sub;
  key = k;
}

abbrev pub find_reply : ReplyKey → List CachedReply → Option CachedReply
find_reply k [] = none
find_reply k (e ∷ es) = if same_reply_key e.reply_key k then some e else find_reply k es

abbrev pub drop_reply : ReplyKey → Desk → Desk
drop_reply k d = record d { replies = keep_if (λ e. not (same_reply_key e.reply_key k)) d.replies }

-- `_idempotency_lookup` on an entry, and what is done where it gives no reply; 24 hours
unfoldable pub reply_or : Call → ReplyKey → Desk → (Desk → Outcome) → Option CachedReply → Outcome
reply_or c k d go none = go d
reply_or c k d go (some e) =
    if ltb 86400 (c.now - e.created_at)
    then go (drop_reply k d)
    else check (str_eq e.request_body c.body) idempotency_conflict d (ok e.response, d)

unfoldable pub idempotent : HitlPort → Call → Desk → (Desk → Outcome) → Option String → Outcome
unfolding reply_or
idempotent p c d go none = go d
idempotent p c d go (some k) =
    check (p.is_key k) malformed_key d
      (reply_or c (reply_key_of c k) d go (find_reply (reply_key_of c k) d.replies))

-- `_idempotency_store`
unfoldable pub keep_reply : Call → Reviewed → Option String → Desk → Desk
keep_reply c r none d = d
keep_reply c r (some k) d = record (drop_reply (reply_key_of c k) d) {
  replies =
      record {
        reply_key = reply_key_of c k;
        created_at = c.now;
        request_body = c.body;
        response = r;
      }
      ∷ (drop_reply (reply_key_of c k) d).replies;
}

-- the children as the roll-up of a case sees them
abbrev pub children : Desk → ExceptionStore
children d = record { records = map (λ e. (e.0, e.1.child)) d.reviews }

abbrev pub with_roll_up : Desk → Result StoreError Rollup → Result StoreError Desk
with_roll_up d (err e) = err e
with_roll_up d (ok rolled) = ok (record d { cases = rolled.store })

-- `_reaggregate_parent_case`, of the case of the record
unfoldable pub reaggregate_parent_case : Call → Desk → Option String → Result StoreError Desk
unfolding recompute_case_status
reaggregate_parent_case c d none = ok d
reaggregate_parent_case c d (some case_id) =
    with_roll_up d
      (recompute_case_status c.tenant_id case_id c.now_iso none true (children d) d.cases)

abbrev pub replied : Call → Reviewed → Desk → Outcome
replied c r d = (ok r, keep_reply c r c.idempotency_key d)

abbrev pub after_roll_up : Call → Reviewed → Desk → Result StoreError Desk → Outcome
after_roll_up c r d (err e) = (err (case_error e), d)
after_roll_up c r d (ok d') = replied c r d'

abbrev pub note : Call → PolicyKey → Reviewed → Reviewed → String → AuditNote
note c key r r' reason = record {
  tenant_id = c.tenant_id;
  exception_id = c.exception_id;
  policy_key = key;
  previous_state = r.child.lifecycle_state;
  new_state = r'.child.lifecycle_state;
  changed_by = c.user.sub;
  change_reason = reason;
}

-- `exception_store.update` and `log_audit_event`
unfoldable pub written : Call → PolicyKey → Reviewed → Reviewed → String → Desk → Desk
written c key r r' reason d = record d {
  reviews = insert c.exception_id r' d.reviews;
  audit = d.audit ++ (note c key r r' reason ∷ []);
}

-- the end of a handler that changes the record
unfoldable pub conclude : Call → PolicyKey → Reviewed → Reviewed → String → Desk → Outcome
unfolding written reaggregate_parent_case keep_reply
conclude c key r r' reason d =
    let d' = written c key r r' reason d in
    after_roll_up c r' d' (reaggregate_parent_case c d' r'.child.parent_case_id)

-- the record in another state
abbrev pub moved : Call → LifecycleState → Reviewed → Reviewed
moved c state r = record r {
  child = record (r.child) { lifecycle_state = state; updated_at = c.now_iso };
}
