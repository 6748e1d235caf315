-- ===== src/AgentLoop/Outcome/Tools.antt =====
-- The run-control tools keep what a run asks of its tools, and so does a registry that is built
-- from tools that do.
use shirita.Prelude.{
  ℕ, ◌≤◌, ◌<◌, ◌≡◌, refl, inl, inr, Option, none, some, true, false, List, [], ◌∷◌, ◌++◌, arith,
  Bool-cases, ltb, leb, is_empty, length, Option-cases, not, ◌&&◌, ◌||◌, sym, subst, ◌∙◌,
  if◌then◌else◌,
}
use shirita.Text.{Text, codes, byte_len, trim, text_eq, text_eq_iff}
use shirita.Json.{Value, get, null, bool, number, array, object, end, as_str}
use shirita.Assoc.{lookup, insert, lookup-insert, contains_key}
use shirita.Tools.{
  ToolCall, ToolSpec, ToolRegistry, ToolHandler, ResponsePatchOperation, finish, reject, accept,
  invalid_arguments, no_tools, register, valid_name, Moment, ToolExecution,
}
use shirita.Tools.Builtin.{
  status_tool, finish_tool, finish_with, replace_response_tool, patch_response_tool, PatchBatch,
  read_operation, read_operations, accept_batch, max_response_workspace_bytes, trimmed_within,
  str_field, u64_field, array_field, usize_add, max_response_patch_ops, max_status_message_bytes,
  max_response_patch_search_bytes, max_response_patch_replace_bytes, or_internal,
}
use shirita.Workspace.Edits.{Searches}
use shirita.AgentLoop.Calls.{is_finish, finish_name}
use shirita.AgentLoop.Outcome.{Asks, Keeps, Promises}

Searches-append :
    (xs : List ResponsePatchOperation) (o : ResponsePatchOperation)
    → Searches xs
    → 0 < length o.search
    → Searches (xs ++ o ∷ [])
Searches-append [] o s h = (h, tt)
Searches-append (x ∷ xs) o s h = (s.0, Searches-append xs o s.1 h)

-- What `read_operation` makes of the two fields.
read_fields-search :
    (search replace : Text) (o : ResponsePatchOperation)
    → (if is_empty search then none else some (record { search = search; replace = replace }))
      ≡ some o
    → 0 < length o.search
read_fields-search [] replace o h = absurd (ground arith)
read_fields-search (c ∷ s) replace o h = ground arith

read_operation-search :
    (v : Value) (o : ResponsePatchOperation) → read_operation v ≡ some o → 0 < length o.search
unfolding read_operation
read_operation-search v o h = elim (Option-cases (str_field v (codes "search"))) [
  | inl e ↦ absurd (ground arith)
  | inr (search, e) ↦ elim (Option-cases (str_field v (codes "replace"))) [
    | inl f ↦ absurd (ground arith)
    | inr (replace, f) ↦ read_fields-search search replace o (ground arith)
  ]
]

read_operations-Searches :
    (ops : List Value) (read : List ResponsePatchOperation) (n m : ℕ) (b : PatchBatch)
    → Searches read
    → read_operations ops read n m ≡ some b
    → Searches b.operations
unfolding read_operations
read_operations-Searches [] read n m b s h = let q : b.operations ≡ read = ground arith in rw q s
read_operations-Searches (op ∷ ops) read n m b s h = elim (Option-cases (read_operation op)) [
  | inl e ↦ absurd (ground arith)
  | inr (o, e) ↦
      read_operations-Searches ops (read ++ o ∷ []) (usize_add n (byte_len o.search))
        (usize_add m (byte_len o.replace)) b
        (Searches-append read o s (read_operation-search op o e)) (ground arith)
]

accept_batch-Asks :
    (call : ToolCall) (revision : ℕ) (r : Option PatchBatch)
    → ((b : PatchBatch) → r ≡ some b → Searches b.operations)
    → Asks call (accept_batch call revision r).control
accept_batch-Asks call revision none s = tt
accept_batch-Asks call revision (some b) s =
    elim (Bool-cases (
      ltb max_response_patch_search_bytes b.search_bytes
      || ltb max_response_patch_replace_bytes b.replace_bytes)) [
        | inl e ↦ rw e tt
        | inr e ↦ rw e (s b refl)
      ]

patch_response_tool-Asks :
    (moment : Moment) (call : ToolCall) → Asks call (patch_response_tool moment call).control
unfolding patch_response_tool
patch_response_tool-Asks moment call =
    elim (Option-cases (u64_field call.arguments (codes "revision"))) [
      | inl e ↦ rw (e, Asks) tt
      | inr (revision, e) ↦
          rw (e, Asks)
            (elim (Option-cases (array_field call.arguments (codes "operations"))) [
              | inl f ↦ rw (f, Asks) tt
              | inr (ops, f) ↦
                  rw (f, Asks)
                    (elim (Bool-cases (is_empty ops)) [
                      | inl g ↦ rw (g, Asks) tt
                      | inr g ↦
                          rw (g, Asks)
                            (elim (Bool-cases (ltb max_response_patch_ops (length ops))) [
                              | inl k ↦ rw (k, Asks) tt
                              | inr k ↦
                                  rw (k, Asks)
                                    (accept_batch-Asks call revision (read_operations ops [] 0 0)
                                      (λ b q. read_operations-Searches ops [] 0 0 b tt q))
                            ])
                    ])
            ])
    ]

replace_response_tool-Asks :
    (moment : Moment) (call : ToolCall) → Asks call (replace_response_tool moment call).control
unfolding replace_response_tool
replace_response_tool-Asks moment call =
    elim (Option-cases (str_field call.arguments (codes "text"))) [
      | inl e ↦ rw (e, Asks) tt
      | inr (text, e) ↦
          rw (e, Asks)
            (elim (Bool-cases (ltb max_response_workspace_bytes (byte_len text))) [
              | inl f ↦ rw (f, Asks) tt
              | inr f ↦
                  let g : byte_len text ≤ max_response_workspace_bytes = ground arith in
                  rw (f, Asks) g
            ])
    ]

status_tool-Asks : (moment : Moment) (call : ToolCall) → Asks call (status_tool moment call).control
unfolding status_tool
status_tool-Asks moment call =
    elim (Option-cases
      (trimmed_within max_status_message_bytes (str_field call.arguments (codes "message")))) [
        | inl e ↦ rw (e, Asks) tt
        | inr (message, e) ↦
            let visibility = or_internal (str_field call.arguments (codes "visibility")) in
            rw (e, Asks)
              (elim (Bool-cases (
                not (text_eq visibility (codes "internal"))
                && not (text_eq visibility (codes "user")))) [
                  | inl f ↦ rw (f, Asks) tt
                  | inr f ↦ rw (f, Asks) tt
                ])
      ]

trimmed_within-nonempty :
    (most : ℕ) (o : Option Text) (s : Text) → trimmed_within most o ≡ some s → is_empty s ≡ false
unfolding trimmed_within
trimmed_within-nonempty most none s h = absurd (ground arith)
trimmed_within-nonempty most (some t) s h = elim (Bool-cases (is_empty (trim t))) [
  | inl e ↦ absurd (ground arith)
  | inr e ↦ elim (Bool-cases (leb (byte_len (trim t)) most)) [
    | inl f ↦ ground arith
    | inr f ↦ absurd (ground arith)
  ]
]

finish_text-Asks :
    (call : ToolCall) (v : Value)
    → is_finish call ≡ true
    → finish_with call v
      ≡ (elim (trimmed_within max_response_workspace_bytes (as_str v)) as (λ o. ToolExecution) [
        | none ↦ reject call invalid_arguments
        | some s ↦ accept call (object end) (finish (some s))
      ])
    → Asks call (finish_with call v).control
finish_text-Asks call v f q =
    rw q (elim (Option-cases (trimmed_within max_response_workspace_bytes (as_str v))) [
      | inl e ↦ rw (e, Asks) tt
      | inr (s, e) ↦
          rw (e, Asks) (f, trimmed_within-nonempty max_response_workspace_bytes (as_str v) s e)
    ])

finish_with-Asks :
    (call : ToolCall) (v : Value) → is_finish call ≡ true → Asks call (finish_with call v).control
unfolding finish_with
finish_with-Asks call null f = f
finish_with-Asks call (bool b) f = finish_text-Asks call (bool b) f refl
finish_with-Asks call (number n) f = finish_text-Asks call (number n) f refl
finish_with-Asks call (Value.text t) f = finish_text-Asks call (Value.text t) f refl
finish_with-Asks call (array vs) f = finish_text-Asks call (array vs) f refl
finish_with-Asks call (object fs) f = finish_text-Asks call (object fs) f refl

finish_tool-Asks :
    (moment : Moment) (call : ToolCall)
    → is_finish call ≡ true
    → Asks call (finish_tool moment call).control
unfolding finish_tool
finish_tool-Asks moment call f = elim (Option-cases (get call.arguments (codes "response"))) [
  | inl e ↦ rw (e, Asks) f
  | inr (v, e) ↦ rw (e, Asks) (finish_with-Asks call v f)
]

pub finish_tool-Keeps : Keeps finish_name finish_tool
finish_tool-Keeps moment call e =
    finish_tool-Asks moment call ((text_eq_iff call.name finish_name).1 e)

-- Each of the four run-control tools asks only for what a run can carry out: the finish tool under
-- its own name, the others under any.
pub controls-Keep :
    (name : Text)
    → Keeps finish_name finish_tool
      × Keeps name status_tool
      × Keeps name replace_response_tool
      × Keeps name patch_response_tool
controls-Keep name = (
  finish_tool-Keeps,
  λ moment call e. status_tool-Asks moment call,
  λ moment call e. replace_response_tool-Asks moment call,
  λ moment call e. patch_response_tool-Asks moment call,
)

pub no_tools-Promises : Promises no_tools
unfolding lookup
no_tools-Promises name handler h = absurd (ground arith)

insert-Promises :
    (builder : ToolRegistry) (spec : ToolSpec) (handler : ToolHandler)
    → Promises builder
    → Keeps spec.name handler
    → Promises (record {
      specs = insert spec.name spec builder.specs;
      handlers = insert spec.name handler builder.handlers;
    })
insert-Promises builder spec handler p k name h q =
    let l = lookup-insert spec.name name handler builder.handlers in
    elim (Bool-cases (text_eq spec.name name)) [
      | inl e ↦
          let same : handler ≡ h = ground arith in
          let named : spec.name ≡ name = (text_eq_iff spec.name name).0 e in
          λ moment call c.
            subst (λ x. Asks call (x moment call).control) same (k moment call (c ∙ sym named))
      | inr e ↦ p name h (ground arith)
    ]

-- A tool that keeps to what a run asks, once it is registered under its name, leaves a registry
-- whose tools all do.
pub register-Promises :
    (builder : ToolRegistry) (spec : ToolSpec) (handler : ToolHandler) (built : ToolRegistry)
    → Promises builder
    → Keeps spec.name handler
    → register builder spec handler ≡ inr built
    → Promises built
unfolding register
register-Promises builder spec handler built p k h = elim (Bool-cases (valid_name spec.name)) [
  | inl e ↦ elim (Bool-cases (contains_key spec.name builder.specs)) [
    | inl f ↦ absurd (ground arith)
    | inr f ↦
        let q : record {
          specs = insert spec.name spec builder.specs;
          handlers = insert spec.name handler builder.handlers;
        }
            ≡ built =
          ground arith in
        subst Promises q (insert-Promises builder spec handler p k)
  ]
  | inr e ↦ absurd (ground arith)
]
