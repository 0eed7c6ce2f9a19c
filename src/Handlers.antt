-- ===== src/Handlers.antt =====
-- HTTP handlers (internal/handler). A request is what gin reads of it: its parameters, and its body
-- where that could be bound. A handler's answer is a reply; the words of the log are left out.
pub mod Hls
pub mod Stream
pub mod Sources
pub mod Shelves
pub mod Library
pub mod Reports
pub mod Tasks
use vaultflix.Base.{ℕ, Str, codes, Option, none, some, leb, ltb, if◌then◌else◌}
use vaultflix.Errors.{Error, Result, ok, err}
use vaultflix.Errors.Http.{Answer, Code, write_error}

-- `c.JSON`, `c.Status`, `c.Redirect` and an error's answer.
pub data Reply (A : Type 0) : Type 0 where
  refused : Answer → Reply A
  replied : ℕ → A → Reply A
  no_content : Reply A

-- `badRequest`
unfoldable pub bad_request : {A : Type 0} → Str → Reply A
bad_request message =
    Reply.refused (record { status = 400; code = Code.bad_request; message = message })

-- `writeError`
abbrev pub refusal : {A : Type 0} → Error → Str → Reply A
refusal e op = Reply.refused (write_error e op)

-- what a handler does with the outcome of an operation that returns nothing
abbrev pub done : {D A : Type 0} → Reply A → Str → D × Option Error → D × Reply A
done reply op (d, none) = (d, reply)
done reply op (d, some e) = (d, refusal e op)

-- and of one that returns a value
abbrev pub answered : {D A : Type 0} → ℕ → Str → D × Result A → D × Reply A
answered status op (d, ok a) = (d, Reply.replied status a)
answered status op (d, err e) = (d, refusal e op)
