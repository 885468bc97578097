-- ===== src/Policy/Tables.antt =====
-- The constants of packages/runtime/src/policy.ts, and `unknownKeys`.
use repo_assessment_kit.Prelude.{ℕ, String, not, List, [], ◌∷◌, every, includes}
use repo_assessment_kit.Json.{Fields, keys}
use repo_assessment_kit.Policy.Text.{rejects}

abbrev pub top_level_keys : List String
top_level_keys = "services" ∷ "networks" ∷ []

abbrev pub service_keys : List String
service_keys =
    "image" ∷ "build" ∷ "command" ∷ "entrypoint" ∷ "depends_on" ∷ "environment" ∷ "user"
    ∷ "working_dir" ∷ "healthcheck" ∷ "networks" ∷ "deploy" ∷ "init" ∷ "stop_grace_period" ∷ []

abbrev pub build_keys : List String
build_keys = "context" ∷ "dockerfile" ∷ "dockerfile_inline" ∷ "args" ∷ "target" ∷ []

abbrev pub deploy_keys : List String
deploy_keys = "replicas" ∷ "resources" ∷ []

abbrev pub resource_keys : List String
resource_keys = "limits" ∷ "reservations" ∷ []

abbrev pub resource_value_keys : List String
resource_value_keys = "cpus" ∷ "memory" ∷ "pids" ∷ []

abbrev pub healthcheck_keys : List String
healthcheck_keys =
    "test" ∷ "interval" ∷ "timeout" ∷ "retries" ∷ "start_period" ∷ "start_interval" ∷ "disable" ∷ []

abbrev pub network_keys : List String
network_keys = "internal" ∷ "driver" ∷ "external" ∷ []

abbrev pub forbidden_service_keys : List (String × String)
forbidden_service_keys =
    ("privileged", "PRIVILEGED_FORBIDDEN")
    ∷ ("cap_add", "CAPABILITY_ADD_FORBIDDEN")
    ∷ ("cap_drop", "TARGET_ISOLATION_OVERRIDE_FORBIDDEN")
    ∷ ("devices", "DEVICE_ACCESS_FORBIDDEN")
    ∷ ("device_cgroup_rules", "DEVICE_ACCESS_FORBIDDEN")
    ∷ ("gpus", "DEVICE_ACCESS_FORBIDDEN")
    ∷ ("runtime", "CUSTOM_RUNTIME_FORBIDDEN")
    ∷ ("use_api_socket", "CONTAINER_API_SOCKET_FORBIDDEN")
    ∷ ("network_mode", "NAMESPACE_SHARING_FORBIDDEN")
    ∷ ("pid", "NAMESPACE_SHARING_FORBIDDEN")
    ∷ ("ipc", "NAMESPACE_SHARING_FORBIDDEN")
    ∷ ("uts", "NAMESPACE_SHARING_FORBIDDEN")
    ∷ ("userns_mode", "NAMESPACE_SHARING_FORBIDDEN")
    ∷ ("cgroup", "CGROUP_OVERRIDE_FORBIDDEN")
    ∷ ("cgroup_parent", "CGROUP_OVERRIDE_FORBIDDEN")
    ∷ ("volumes", "BIND_OR_SOCKET_MOUNT_FORBIDDEN")
    ∷ ("volumes_from", "VOLUME_INHERITANCE_FORBIDDEN")
    ∷ ("ports", "HOST_PORT_FORBIDDEN")
    ∷ ("expose", "TARGET_NETWORK_OVERRIDE_FORBIDDEN")
    ∷ ("extra_hosts", "EXTRA_HOST_FORBIDDEN")
    ∷ ("dns", "CUSTOM_DNS_FORBIDDEN")
    ∷ ("dns_opt", "CUSTOM_DNS_FORBIDDEN")
    ∷ ("dns_search", "CUSTOM_DNS_FORBIDDEN")
    ∷ ("mac_address", "STATIC_NETWORK_IDENTITY_FORBIDDEN")
    ∷ ("links", "TARGET_NETWORK_OVERRIDE_FORBIDDEN")
    ∷ ("sysctls", "UNSAFE_SYSCTL_FORBIDDEN")
    ∷ ("security_opt", "TARGET_ISOLATION_OVERRIDE_FORBIDDEN")
    ∷ ("read_only", "TARGET_ISOLATION_OVERRIDE_FORBIDDEN")
    ∷ ("tmpfs", "TARGET_ISOLATION_OVERRIDE_FORBIDDEN")
    ∷ ("provider", "PROVIDER_HOOK_FORBIDDEN")
    ∷ ("post_start", "LIFECYCLE_HOOK_FORBIDDEN")
    ∷ ("pre_stop", "LIFECYCLE_HOOK_FORBIDDEN")
    ∷ ("secrets", "TARGET_SECRET_CHANNEL_FORBIDDEN")
    ∷ ("configs", "TARGET_CONFIG_CHANNEL_FORBIDDEN")
    ∷ ("logging", "REMOTE_LOGGING_FORBIDDEN")
    ∷ []

-- `FORBIDDEN_SERVICE_KEYS.keys()`.
abbrev pub names_of : List (String × String) → List String
names_of [] = []
names_of ((name, rejection) ∷ others) = name ∷ names_of others

abbrev pub max_service_memory : ℕ
max_service_memory = 2147483648

abbrev pub max_service_pids : ℕ
max_service_pids = 256

abbrev pub max_total_memory : ℕ
max_total_memory = 6442450944

-- `unknownKeys`.
unfoldable pub unknown_keys : Fields → List String → List String
unknown_keys fs allowed =
    rejects (not (every (includes allowed) (keys fs))) "UNKNOWN_ISOLATION_FIELD"
