-- ===== src/Errors/InTime.antt =====
-- Results of src/error.rs that are no timeouts, through `?` and `map_err`.
use pg_grpc.Common.{Option, none, some, Result, ok, err, ◌>>=◌, map_err, ok_or}
use pg_grpc.Errors.{GrpcError, GrpcResult, connection, proto, proto_compile, call, timeout}

abbrev pub IsOther : GrpcError → Type 0
IsOther (connection s) = Unit
IsOther (proto s) = Unit
IsOther (proto_compile s) = Unit
IsOther (call s) = Unit
IsOther (timeout n) = ⊥

-- The result is not a timeout.
abbrev pub InTime : {A : Type 0} → GrpcResult A → Type 0
InTime (ok a) = Unit
InTime (err e) = IsOther e

pub InTime->>= :
    {A B : Type 0} (r : GrpcResult A) (f : A → GrpcResult B)
    → InTime r
    → ((a : A) → InTime (f a))
    → InTime (r >>= f)
InTime->>= (ok a) f h g = g a
InTime->>= (err e) f h g = h

pub InTime-map_err :
    {E A : Type 0} (f : E → GrpcError) (r : Result E A)
    → ((e : E) → IsOther (f e))
    → InTime (map_err f r)
InTime-map_err f (ok a) h = tt
InTime-map_err f (err e) h = h e

pub InTime-ok_or : {A : Type 0} (o : Option A) (e : GrpcError) → IsOther e → InTime (ok_or o e)
InTime-ok_or none e h = h
InTime-ok_or (some a) e h = tt
