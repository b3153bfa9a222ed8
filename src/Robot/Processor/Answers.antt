-- ===== src/Robot/Processor/Answers.antt =====
-- That every message is answered, and by whom.
use open_yzj.Prelude.{
  Bool, Exc, List, Result, String, [], any, false, null_list, ok, raise, refl, true, ◌||◌, ◌∷◌, ◌≡◌,
}
use open_yzj.Value.{Items, Value, arr, cons, is_text, nil, to_list}
use open_yzj.Robot.Message.{Payload, ResponseData, Task}
use open_yzj.Robot.Router.{Handler, handler_name, route}
use open_yzj.Robot.Processor.{clean, fallback, guarded, handle, not_supported}

-- A name stands in a list of handlers, or the list is empty and allows all.
abbrev pub is_allowed : String → List Value → Bool
is_allowed name vs = null_list vs || any (is_text name) vs

module _ {W : Type 0}
    (run : Handler → Payload → String → String → W → Result ResponseData × (List Task × W)) where
  -- How a message is answered: the handler is not allowed and nothing happens; it is run and its
  -- answer is taken; or it raises and the answer is the fallback, what it did before standing.
  pub data IsAnswered (p : Payload) (session_id robot_code : String) (vs : List Value) (w : W)
      : Result ResponseData × (List Task × W) → Type 0 where
    refused :
        is_allowed (handler_name (route (clean p).content)) vs ≡ false
        → IsAnswered p session_id robot_code vs w
            (ok (not_supported (route (clean p).content)), ([], w))
    answered :
        (reply : ResponseData) (rest : List Task × W)
        → is_allowed (handler_name (route (clean p).content)) vs ≡ true
        → run (route (clean p).content) (clean p) session_id robot_code w ≡ (ok reply, rest)
        → IsAnswered p session_id robot_code vs w (ok reply, rest)
    failed :
        (e : Exc) (rest : List Task × W)
        → is_allowed (handler_name (route (clean p).content)) vs ≡ true
        → run (route (clean p).content) (clean p) session_id robot_code w ≡ (raise e, rest)
        → IsAnswered p session_id robot_code vs w (ok (fallback robot_code), rest)

  guarded_lem :
      (p : Payload) (session_id robot_code : String) (vs : List Value) (w : W)
      (out : Result ResponseData × (List Task × W))
      → is_allowed (handler_name (route (clean p).content)) vs ≡ true
      → run (route (clean p).content) (clean p) session_id robot_code w ≡ out
      → IsAnswered p session_id robot_code vs w (guarded run robot_code out)
  guarded_lem p session_id robot_code vs w (ok reply, rest) may h = answered reply rest may h
  guarded_lem p session_id robot_code vs w (raise e, rest) may h = failed e rest may h

  by_list :
      (p : Payload) (session_id robot_code : String) (v : Value) (vs : Items) (w : W) (b : Bool)
      → any (is_text (handler_name (route (clean p).content))) (v ∷ to_list vs) ≡ b
      → IsAnswered p session_id robot_code (v ∷ to_list vs) w (elim (Result.ok b) [
        | ok true ↦
            guarded run robot_code (run (route (clean p).content) (clean p) session_id robot_code w)
        | ok false ↦ (ok (not_supported (route (clean p).content)), ([], w))
        | raise e ↦ (raise e, ([], w))
      ])
  by_list p session_id robot_code v vs w true may =
      guarded_lem p session_id robot_code (v ∷ to_list vs) w
        (run (route (clean p).content) (clean p) session_id robot_code w) may refl
  by_list p session_id robot_code v vs w false not_listed = refused not_listed

  -- With a list of allowed handlers, `handle` always answers: if the list is not empty and lacks
  -- the handler that the cleaned message is routed to, with a refusal, nothing else happening; or
  -- else with the answer of that handler; or, when that raises, with the fallback, what the handler
  -- did before being kept.
  pub handle-IsAnswered :
      (p : Payload) (session_id robot_code : String) (vs : Items) (w : W)
      → IsAnswered p session_id robot_code
          (to_list vs)
          w
          (handle run p session_id robot_code (arr vs) w)
  unfolding handle
  handle-IsAnswered p session_id robot_code nil w =
      guarded_lem p session_id robot_code [] w
        (run (route (clean p).content) (clean p) session_id robot_code w) refl refl
  handle-IsAnswered p session_id robot_code (cons v vs) w =
      by_list p session_id robot_code v vs w
        (any (is_text (handler_name (route (clean p).content))) (v ∷ to_list vs)) refl
