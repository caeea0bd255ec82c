-- ===== src/Http/Filter.antt =====
-- nestjs-app/src/common/filters/all-exceptions.filter.ts: the answer to a request that threw. What
-- Nest's own exceptions hold is given with the exception.
use basket_shared.Prelude.{ℕ, Bool, Option, List, leb, or_else, Text, text}
use basket_shared.World.Entities.{Message}
use basket_shared.World.Monad.{Failure, not_found, conflict, unauthorized, forbidden}

-- A text of the framework, a text of the program, or several texts.
pub data Said : Type 0 where
  literal : Text → Said
  said : Message → Said
  listed : List Text → Said

-- `exception.getResponse()`: a string, or an object whose fields may be missing.
pub data ResponseBody : Type 0 where
  bare : Said → ResponseBody
  fields : (message : Option Said) (error : Option Text) → ResponseBody

pub record HttpException : Type 0 where
  pub status : ℕ
  pub name : Text
  pub message : Said
  pub body : ResponseBody

pub data Exception : Type 0 where
  http : HttpException → Exception
  other : Exception

pub record ErrorBody : Type 0 where
  pub status_code : ℕ
  pub error : Text
  pub message : Said
  pub path : Text
  pub timestamp : ℕ

-- What is sent, and whether a stack trace is logged.
pub record Caught : Type 0 where
  pub body : ErrorBody
  pub logged : Bool

unfoldable pub status_of : Exception → ℕ
status_of (http e) = e.status
status_of other = 500

-- The pair of the error's name and its message.
abbrev pub described : HttpException → ResponseBody → Text × Said
described e (bare m) = (text "InternalServerError", m)
described e (fields message label) = (or_else label e.name, or_else message e.message)

unfoldable pub describe : Exception → Text × Said
describe (http e) = described e e.body
describe other = (text "InternalServerError", literal (text "Internal server error"))

unfoldable pub catch_exception : Exception → (url : Text) (now : ℕ) → Caught
unfolding status_of describe
catch_exception exception url now =
    let (label, message) = describe exception in
    record {
      body = record {
        status_code = status_of exception;
        error = label;
        message = message;
        path = url;
        timestamp = now;
      };
      logged = leb 500 (status_of exception);
    }

-- The exceptions that the program throws: Nest's own, made as Nest makes them, and others.
unfoldable pub exception_of : (Failure → HttpException) → Failure → Exception
exception_of nest (not_found m) = http (nest (not_found m))
exception_of nest (conflict m) = http (nest (conflict m))
exception_of nest (unauthorized m) = http (nest (unauthorized m))
exception_of nest (forbidden m) = http (nest (forbidden m))
exception_of nest e = other
