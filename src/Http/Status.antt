-- ===== src/Http/Status.antt =====
-- The status codes and methods of the http crate that src/http.rs names.
pub data StatusCode : Type 0 where
  ok bad_request not_found method_not_allowed internal_server_error : StatusCode

-- `other` stands for the methods that no route has.
pub data Method : Type 0 where
  get post delete other : Method
