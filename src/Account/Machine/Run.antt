-- ===== src/Account/Machine/Run.antt =====
-- The calls of the service as one operation, and what every call keeps.
use gcdr.Base.{String, Option}
use gcdr.Account.Data.{Env, Db}
use gcdr.Account.Registration.{
  register, verify_email, resend_verification_code, request_password_reset, reset_password,
  approve_user, reject_user, unlock_user,
}
use gcdr.Account.SignIn.{HmacSha1, authenticate}
use gcdr.Account.Machine.{Journey, stay, IsSound, IsFreshId}
use gcdr.Account.Machine.Sound.{Journey-IsSound}
use gcdr.Account.Machine.Journeys.{verify_email-Along}
use gcdr.Account.Machine.Registering.{
  register-Along, resend_users, request_users, reset_Along, approve_Along, reject_Along,
  unlock_Along,
}
use gcdr.Account.Machine.SigningIn.{authenticate-Along}

-- The calls that the controllers make, with their arguments.
pub data Op : Type 0 where
  register_op :
      String
      → String
      → String
      → String
      → Option String
      → Option String
      → Option String
      → Option String
      → Op
  verify_email_op : String → String → Op
  resend_op request_reset_op : String → Option String → Option String → Op
  reset_op : String → String → String → Op
  approve_op unlock_op : String → String → Op
  reject_op : String → String → String → Op
  sign_in_op : String → String → Option String → Option String → Op

-- The tables after a call, however it ends.
unfoldable pub run_op : HmacSha1 → Env → Op → Db → Db
run_op hmac env (register_op email password first_name last_name phone customer_id ip agent) db =
    (register env email password first_name last_name phone customer_id ip agent db).1
run_op hmac env (verify_email_op email code) db = (verify_email env email code db).1
run_op hmac env (resend_op email ip agent) db = (resend_verification_code env email ip agent db).1
run_op hmac env (request_reset_op email ip agent) db =
    (request_password_reset env email ip agent db).1
run_op hmac env (reset_op email code new_password) db =
    (reset_password env email code new_password db).1
run_op hmac env (approve_op id by) db = (approve_user env id by db).1
run_op hmac env (unlock_op id by) db = (unlock_user env id by db).1
run_op hmac env (reject_op id by reason) db = (reject_user env id by reason db).1
run_op hmac env (sign_in_op email password mfa_code ip) db =
    (authenticate hmac env email password mfa_code ip db).1

-- Every call of registration, approval, unlocking, password reset and sign-in, whether it returns or
-- throws, takes the users of a sound table only along the machine's steps: a registration under a
-- free email, or changes of one row that its status allows, given a new id that no user has.
pub run_op-Journey :
    (hmac : HmacSha1) (env : Env) (op : Op) (db : Db)
    → IsSound env db.users
    → IsFreshId env db.users
    → Journey env db.users (run_op hmac env op db).users
unfolding run_op
run_op-Journey hmac env (register_op email password first_name last_name phone customer_id ip agent)
      db sound fresh =
    register-Along env email password first_name last_name phone customer_id ip agent db fresh
run_op-Journey hmac env (verify_email_op email code) db sound fresh =
    verify_email-Along env email code db sound
run_op-Journey hmac env (resend_op email ip agent) db sound fresh =
    rw (resend_users env email ip agent db) stay
run_op-Journey hmac env (request_reset_op email ip agent) db sound fresh =
    rw (request_users env email ip agent db) stay
run_op-Journey hmac env (reset_op email code new_password) db sound fresh =
    reset_Along env email code new_password db sound
run_op-Journey hmac env (approve_op id by) db sound fresh = approve_Along env id by db
run_op-Journey hmac env (unlock_op id by) db sound fresh = unlock_Along env id by db
run_op-Journey hmac env (reject_op id by reason) db sound fresh = reject_Along env id by reason db
run_op-Journey hmac env (sign_in_op email password mfa_code ip) db sound fresh =
    authenticate-Along env hmac email password mfa_code ip db sound

-- Every call of registration, approval, unlocking, password reset and sign-in, however it ends, keeps
-- the tenant's users sound: ids and emails stay unique, and a user whose status
-- is pending, active, locked or inactive has a verified email and the approval or the rejection that
-- the status claims, given a new id that no user has.
pub run_op-IsSound :
    (hmac : HmacSha1) (env : Env) (op : Op) (db : Db)
    → IsSound env db.users
    → IsFreshId env db.users
    → IsSound env (run_op hmac env op db).users
run_op-IsSound hmac env op db sound fresh =
    Journey-IsSound env db.users (run_op-Journey hmac env op db sound fresh) sound
