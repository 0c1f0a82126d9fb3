-- ===== src/RunAgent.antt =====
-- src/agent.cpp: finding an agent and running it. The calls to the SDK are a list, in their order; what
-- they answer is an argument. The output is read through a borrowing locker, and whatever is thrown
-- there is caught. The handle of the context is cleaned up by the thread that made it.
pub mod Context
mod Tests
use dmn_cpp.Base.{
  ℕ, ◌*◌, Bool, true, false, ◌||◌, List, [], ◌∷◌, ◌++◌, map, Option, none, some, Bytes, ltb, ◌==◌,
  if◌then◌else◌, Result, ok, err,
}
use dmn_cpp.Base
use dmn_cpp.Handle.{Handle, make}
use dmn_cpp.Handle
use dmn_cpp.Status.{Codes, Answer, is_error, is_not_found, throw_if_error}
use dmn_cpp.Lmbcs.{Translate, to_string}
use dmn_cpp.Cursor.{Outcome, done, threw, fault, lift}
use dmn_cpp.Traced.{Traced, ◌>>=◌, ◌>>◌, call, silent}
use dmn_cpp.Locker.{Made, borrow, construct}
use dmn_cpp.Locker

abbrev pub max_text_buffer : ℕ
max_text_buffer = 60 * 1024

-- The answers of the two searches for the design note; whether there is one.
unfoldable pub find_note : Codes → ℕ → ℕ → Result Bool
unfolding is_error is_not_found throw_if_error
find_note c public private =
    if is_error public
    then (if is_not_found c private then ok false else Base.◌>>◌ (throw_if_error private) (ok true))
    else ok true

-- `AgentOpen`, where the design note was found.
unfoldable pub open_found : Codes → ℕ → Answer → Bool → Result (Option Handle)
unfolding is_not_found throw_if_error make
open_found c thread answer false = ok none
open_found c thread answer true =
    if is_not_found c answer.status
    then ok none
    else Base.◌>>◌ (throw_if_error answer.status) (ok (some (make answer.handle true thread)))

unfoldable pub open_agent : Codes → ℕ → Result ℕ → ℕ → ℕ → Answer → Result (Option Handle)
unfolding find_note open_found
open_agent c thread db public private answer =
    Base.◌>>=◌ db
      λ d. Base.◌>>=◌ (find_note c public private) λ found. open_found c thread answer found

pub data Call : Type 0 where
  create_context set_document redirect run query : Call
  memory : Locker.Call → Call
  destroy_context : ℕ → Call

-- What the SDK answers: the context, the statuses, the output's handle and size, and what the lock of
-- its memory gives.
pub record Native : Type 0 where
  pub context : Answer
  pub document_status : ℕ
  pub redirect_status : ℕ
  pub run_status : ℕ
  pub out_hdl : ℕ
  pub out_len : ℕ
  pub out_memory : Option Bytes

-- The try block, from what the locker's constructor gave on.
unfoldable pub read_output : Translate → Made → Traced Call (Option Bytes)
read_output os (done locker, calls) =
    (done (some (to_string os locker.cursor.buffer)), map memory (calls ++ Locker.destroy locker))
read_output os (threw e, calls) = (done none, map memory calls)
read_output os (fault, calls) = (fault, map memory calls)

module _ (os : Translate) (native : Native) where
  unfoldable pub grab_output : Traced Call (Option Bytes)
  unfolding read_output construct
  grab_output =
      if native.out_len == 0
      then (done (some []), [])
      else if (native.out_hdl == 0) || ltb max_text_buffer native.out_len
      then (done none, [])
      else read_output os (
          construct (record { pool = native.out_hdl; block = 0 }) native.out_len borrow
            native.out_memory)

  -- The note's handle is asked for only where there is a note.
  unfoldable pub set_context : Option (Result ℕ) → Traced Call (Unit {0})
  unfolding call
  set_context none = (done tt, [])
  set_context (some (err e)) = (threw e, [])
  set_context (some (ok h)) = call set_document native.document_status

  unfoldable pub in_context : Option (Result ℕ) → Traced Call (Option Bytes)
  unfolding set_context call grab_output
  in_context note = do
    set_context note
    call redirect native.redirect_status
    call run native.run_status
    (done tt, query ∷ [])
    grab_output

  -- The context is destroyed however the code in it ends.
  unfoldable pub with_context : Traced Call (Option Bytes) → Traced Call (Option Bytes)
  with_context (r, calls) = (
    r,
    calls
        ++ (if native.context.handle == 0 then [] else destroy_context native.context.handle ∷ []),
  )

  unfoldable pub run_agent : ℕ → Handle → Option (Result ℕ) → Traced Call (Option Bytes)
  unfolding call with_context in_context
  run_agent thread agent note = do
    h ← silent (lift (Handle.get thread agent))
    call create_context native.context.status
    with_context (in_context note)
