-- ===== src/Call/Messages/Laws.antt =====
-- How `resolve_method` of src/call.rs finds the method of a call.
use pg_grpc.Common.{
  ◌≡◌, ◌≢◌, refl, ap, inl, inr, String, Bool-cases, Option, none, some, List, [], ◌∷◌, ◌++◌, ok,
  err, ok_or, All, ◌==◌, string_eq,
}
use pg_grpc.Text.{◌⧺◌}
use pg_grpc.Errors.{GrpcResult, proto}
use pg_grpc.Call.Network.{Libraries}
use pg_grpc.Call.Messages.{find_method, resolve_method}

module _ (lib : Libraries) where
  -- No method of the list has the name.
  abbrev pub Lacks : String → List lib.MethodDescriptor → Type 0
  Lacks name = All λ m. lib.method_name m ≢ name

  -- A method has the name, and none of the list before it has.
  pub record IsFirstNamed (name : String) (methods : List lib.MethodDescriptor)
      (m : lib.MethodDescriptor) : Type 0 where
    pub before : List lib.MethodDescriptor
    pub after : List lib.MethodDescriptor
    pub split : methods ≡ before ++ m ∷ after
    pub named : lib.method_name m ≡ name
    pub lacks : Lacks name before

  -- What a service's pool has for a service and a method: the method; no such service; no such method.
  pub data Resolves (pool : lib.descriptors.DescriptorPool) (service_name method_name : String)
      : GrpcResult lib.MethodDescriptor → Type 0 where
    resolved :
        (svc : lib.ServiceDescriptor) (m : lib.MethodDescriptor)
        → lib.get_service_by_name pool service_name ≡ some svc
        → IsFirstNamed method_name (lib.methods svc) m
        → Resolves pool service_name method_name (ok m)
    no_service :
        lib.get_service_by_name pool service_name ≡ none
        → Resolves pool service_name method_name
            (err (proto ("service not found: " ⧺ service_name)))
    no_method :
        (svc : lib.ServiceDescriptor)
        → lib.get_service_by_name pool service_name ≡ some svc
        → Lacks method_name (lib.methods svc)
        → Resolves pool service_name method_name (err (proto ("method not found: " ⧺ method_name)))

  -- What `find_method` answers on a list.
  abbrev Found : String → List lib.MethodDescriptor → Option lib.MethodDescriptor → Type 0
  Found name methods none = Lacks name methods
  Found name methods (some m) = IsFirstNamed name methods m

  Found-later :
      (name : String) (m : lib.MethodDescriptor) (methods : List lib.MethodDescriptor)
      (o : Option lib.MethodDescriptor)
      → lib.method_name m ≢ name
      → Found name methods o
      → Found name (m ∷ methods) o
  Found-later name m methods none other f = (other, f)
  Found-later name m methods (some n) other f = record {
    before = m ∷ f.before;
    after = f.after;
    split = ap (λ l. m ∷ l) f.split;
    named = f.named;
    lacks = (other, f.lacks);
  }

  find_method-Found :
      (name : String) (methods : List lib.MethodDescriptor)
      → Found name methods (find_method lib name methods)
  unfolding find_method
  find_method-Found name [] = tt
  find_method-Found name (m ∷ methods) = elim (Bool-cases (lib.method_name m == name)) [
    | inl same ↦ rw (same) (record {
      before = [];
      after = methods;
      split = refl;
      named = (string_eq.same_iff (lib.method_name m) name).0 same;
      lacks = tt;
    })
    | inr other ↦ rw (other) (
        Found-later name m methods (find_method lib name methods)
          (λ e. cc (other, (string_eq.same_iff (lib.method_name m) name).1 e))
          (find_method-Found name methods))
  ]

  -- A service and a method are resolved to the first method with that name of the service with that
  -- name; otherwise the error tells which of the two there is not.
  pub resolve_method-Resolves :
      (pool : lib.descriptors.DescriptorPool) (service_name method_name : String)
      → Resolves pool service_name method_name (resolve_method lib pool service_name method_name)
  unfolding resolve_method
  resolve_method-Resolves pool service_name method_name =
      go_service (lib.get_service_by_name pool service_name) refl
    where
      go_method :
          (svc : lib.ServiceDescriptor) (o : Option lib.MethodDescriptor)
          → lib.get_service_by_name pool service_name ≡ some svc
          → Found method_name (lib.methods svc) o
          → Resolves pool service_name method_name
              (ok_or o (proto ("method not found: " ⧺ method_name)))
      go_method svc none e f = no_method svc e f
      go_method svc (some m) e f = resolved svc m e f

      go_service :
          (o : Option lib.ServiceDescriptor)
          → lib.get_service_by_name pool service_name ≡ o
          → Resolves pool service_name method_name
              (resolve_method lib pool service_name method_name)
      go_service none e = rw (e, resolve_method) (no_service e)
      go_service (some svc) e =
          rw (e, resolve_method)
            (go_method svc (find_method lib method_name (lib.methods svc)) e
              (find_method-Found method_name (lib.methods svc)))
