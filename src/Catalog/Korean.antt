-- ===== src/Catalog/Korean.antt =====
-- frontend/src/i18n/catalog.ts: the Korean catalogue.
use llm_evaluation.Prelude.{String}
use llm_evaluation.Catalog.Keys.{TranslationKey}

unfoldable pub ko : TranslationKey → String
ko TranslationKey.common_dismiss = "닫기"
ko TranslationKey.common_loading = "불러오는 중…"
ko TranslationKey.common_not_configured = "구성되지 않음"
ko TranslationKey.common_not_recorded = "기록되지 않음"
ko TranslationKey.common_unavailable = "사용할 수 없음"
ko TranslationKey.common_unknown = "알 수 없음"
ko TranslationKey.locale_label = "작업 공간 언어"
ko TranslationKey.locale_unsupported = "지원하지 않는 로캘"
ko TranslationKey.provider_missing = "번역 공급자를 사용할 수 없습니다."
ko TranslationKey.run_launcher_context_title = "실행 컨텍스트"
ko TranslationKey.run_launcher_context_description = "사용 가능한 엔드포인트를 선택하고 대기열에 추가하기 전에 실행 경로를 확인하세요."
ko TranslationKey.run_launcher_quick_start_title = "빠른 시작"
ko TranslationKey.run_launcher_quick_start_description = "데이터 세트를 준비하지 않고 작은 내장 평가를 실행합니다."
ko TranslationKey.run_launcher_dataset_description = "준비된 데이터 세트를 선택하고 필드를 평가 스냅샷에 매핑합니다."
ko TranslationKey.run_launcher_quick_start_benchmark = "빠른 시작 벤치마크"
ko TranslationKey.run_launcher_offline_hint = "내장 샘플은 작고 결정적이며 텍스트 및 모달리티 확인에 오프라인으로 사용할 수 있습니다."
ko TranslationKey.run_launcher_queue_quick_start = "빠른 시작 대기열에 추가"
ko TranslationKey.run_launcher_preflight_quick_start = "빠른 시작 사전 확인"
ko TranslationKey.run_launcher_preflight_dataset = "데이터 세트 사전 확인"
ko TranslationKey.run_launcher_not_checked = "확인하지 않음"
ko TranslationKey.run_launcher_checking = "확인 중…"
ko TranslationKey.run_launcher_ready = "대기열 추가 준비됨"
ko TranslationKey.run_launcher_blocked = "차단됨"
ko TranslationKey.run_launcher_dataset_handoff = "데이터 세트 카탈로그에서 선택했습니다. 대기열에 추가하기 전에 필드 매핑을 확인하세요."
ko TranslationKey.run_launcher_schema_loading = "준비된 데이터 세트 필드를 읽는 중…"
ko TranslationKey.run_launcher_schema_empty = "이 데이터 세트에는 선택 가능한 필드가 없습니다."
ko TranslationKey.run_launcher_schema_reference_required =
    "이 데이터 세트에는 필드가 하나만 있으므로 별도의 참조 필드가 필요합니다."
ko TranslationKey.run_launcher_schema_distinct_fields = "입력 필드와 참조 필드는 달라야 합니다."
ko TranslationKey.run_launcher_schema_retry = "다시 시도"
ko TranslationKey.prompt_package_title = "프롬프트 패키지"
ko TranslationKey.prompt_package_description = "실행을 위한 버전 관리 평가 지침을 만듭니다."
ko TranslationKey.prompt_package_inventory = "프롬프트 패키지 인벤토리"
ko TranslationKey.prompt_package_empty = "프롬프트 패키지가 아직 없습니다."
ko TranslationKey.prompt_package_create = "프롬프트 패키지 만들기"
ko TranslationKey.prompt_package_name = "이름"
ko TranslationKey.prompt_package_version = "버전"
ko TranslationKey.prompt_package_type = "프롬프트 유형"
ko TranslationKey.prompt_package_system_message = "시스템 메시지"
ko TranslationKey.prompt_package_user_template = "사용자 템플릿"
ko TranslationKey.prompt_package_few_shot_examples = "Few-shot 예시(JSON 배열)"
ko TranslationKey.prompt_package_output_format = "출력 형식(JSON 객체)"
ko TranslationKey.prompt_package_response_parser = "응답 파서(JSON 객체)"
ko TranslationKey.prompt_package_scoring_rule = "채점 규칙(JSON 객체)"
ko TranslationKey.prompt_package_change_log = "변경 로그"
ko TranslationKey.prompt_package_save = "버전 관리 프롬프트 저장"
ko TranslationKey.prompt_package_saving = "저장 중…"
ko TranslationKey.prompt_package_invalid_json = "선택적 구성 필드에는 올바른 JSON을 사용하세요."
ko TranslationKey.prompt_package_examples_must_array = "Few-shot 예시는 JSON 배열이어야 합니다."
ko TranslationKey.prompt_package_config_must_object = "선택적 구성 필드는 JSON 객체여야 합니다."
ko TranslationKey.prompt_package_inventory_tab = "프롬프트 목록"
ko TranslationKey.prompt_package_inventory_description = "버전을 선택하여 평가 지침을 검토하고 관리하세요."
ko TranslationKey.prompt_package_create_tab = "새 프롬프트 패키지"
ko TranslationKey.prompt_package_create_description = "평가에서 재사용할 수 있는 버전 관리 프롬프트 패키지를 만드세요."
ko TranslationKey.prompt_package_identity = "식별 정보 및 유형"
ko TranslationKey.prompt_package_instructions = "프롬프트 지침"
ko TranslationKey.prompt_package_advanced = "고급 구성"
ko TranslationKey.prompt_package_template_hint = "지원되는 템플릿 변수:"
ko TranslationKey.prompt_package_variables = "변수"
ko TranslationKey.prompt_package_no_system_message = "시스템 메시지가 구성되지 않았습니다."
ko TranslationKey.prompt_package_not_configured = "구성되지 않음"
ko TranslationKey.prompt_package_no_change_log = "변경 로그가 제공되지 않았습니다."
ko TranslationKey.prompt_package_edit = "프롬프트 패키지 편집"
ko TranslationKey.prompt_package_save_changes = "변경 사항 저장"
ko TranslationKey.prompt_package_cancel = "취소"
ko TranslationKey.prompt_package_duplicate = "새 버전으로 복제"
ko TranslationKey.prompt_package_delete = "패키지 삭제"
ko TranslationKey.prompt_package_deleting = "삭제 중…"
ko TranslationKey.prompt_package_delete_confirmation =
    "{{name}} v{{version}}을(를) 삭제할까요? 실행 또는 스위트에서 사용 중인 패키지는 보호됩니다."
ko TranslationKey.prompt_package_saved_notice = "버전 관리 프롬프트 패키지가 저장되었습니다."
ko TranslationKey.prompt_package_updated_notice = "프롬프트 패키지가 업데이트되었습니다."
ko TranslationKey.prompt_package_deleted_notice = "프롬프트 패키지가 삭제되었습니다."
ko TranslationKey.dataset_run_title = "데이터 세트 평가"
ko TranslationKey.dataset_run_dataset = "데이터 세트"
ko TranslationKey.dataset_run_prompt_package = "프롬프트 패키지(선택 사항)"
ko TranslationKey.dataset_run_reference_field = "참조 필드"
ko TranslationKey.dataset_run_reference_field_hint = "예상 답변이 포함된 레코드 필드"
ko TranslationKey.dataset_run_sample_limit = "샘플 제한"
ko TranslationKey.dataset_run_endpoint = "엔드포인트"
ko TranslationKey.dataset_run_non_ready_hint = "준비된 데이터 세트만 나열됩니다. 다른 버전을 먼저 다운로드하여 확인하세요."
ko TranslationKey.dataset_run_queue = "데이터 세트 평가 대기열에 추가"
ko TranslationKey.dataset_run_queued = "데이터 세트 평가가 대기열에 추가되었습니다."
ko TranslationKey.dataset_run_input_field = "입력 필드"
ko TranslationKey.dataset_run_metric = "평가 지표"
ko TranslationKey.dataset_run_metric_default = "기본값"
ko TranslationKey.dataset_run_metric_exact_match = "정확히 일치"
ko TranslationKey.dataset_run_metric_normalized_exact_match = "정규화된 정확히 일치"
ko TranslationKey.dataset_run_metric_token_f1 = "토큰 F1"
ko TranslationKey.dataset_run_metric_bleu = "BLEU"
ko TranslationKey.dataset_run_metric_rouge_l = "ROUGE-L"
ko TranslationKey.dataset_run_metric_llm_judge = "LLM 심사"
ko TranslationKey.dataset_run_judge_endpoint = "심사 엔드포인트"
ko TranslationKey.dataset_run_judge_endpoint_hint = "평가 중인 모델과 다른 연결 테스트를 통과한 엔드포인트를 선택하세요."
ko TranslationKey.dataset_run_judge_system_message = "심사 시스템 메시지"
ko TranslationKey.dataset_run_judge_system_message_hint = "심사가 각 답변에 적용할 평가 기준을 정의하세요."
ko TranslationKey.dataset_run_judge_configuration_required = "별도의 심사 엔드포인트를 선택하고 시스템 메시지를 입력하세요."
ko TranslationKey.dataset_run_metric_default_hint = "기본값은 프롬프트 패키지 채점 규칙을 사용하고, 없으면 정확히 일치로 돌아갑니다."
ko TranslationKey.dataset_run_metric_override_hint = "여기서 지표를 선택하면 프롬프트 패키지 채점 규칙이 재정의됩니다."
ko TranslationKey.dataset_run_effective_metric = "평가 지표"
ko TranslationKey.dataset_run_start_evaluation = "평가 시작"
ko TranslationKey.dataset_register_title = "데이터 세트 버전 등록"
ko TranslationKey.dataset_register_input_field = "입력 필드"
ko TranslationKey.dataset_register_reference_field = "참조 필드(출력)"
ko TranslationKey.dataset_register_input_field_hint = "프롬프트 입력으로 사용되는 레코드 필드(선택 사항)"
ko TranslationKey.dataset_register_reference_field_hint = "예상 답변이 포함된 레코드 필드(선택 사항)"
ko TranslationKey.dataset_register_metadata = "평가 프로필"
ko TranslationKey.dataset_register_metadata_hint = "이 버전에 재사용 가능한 작업 및 언어 메타데이터를 추가합니다."
ko TranslationKey.dataset_register_capabilities = "기능"
ko TranslationKey.dataset_register_languages = "언어"
ko TranslationKey.dataset_register_evaluation_type = "평가 유형"
ko TranslationKey.dataset_register_remove_capability = "기능 제거"
ko TranslationKey.dataset_register_remove_language = "언어 제거"
ko TranslationKey.dataset_register_multi_value_hint = "Enter 또는 쉼표로 추가하고 Backspace로 마지막 값을 제거합니다."
ko TranslationKey.dataset_register_type_classification = "분류"
ko TranslationKey.dataset_register_type_generation = "생성"
ko TranslationKey.dataset_register_type_code = "코드"
ko TranslationKey.dataset_register_type_language_modeling = "언어 모델링"
ko TranslationKey.dataset_register_type_custom = "사용자 지정"
ko TranslationKey.dataset_register_schema_loading = "선택할 준비된 필드를 읽는 중…"
ko TranslationKey.dataset_register_manual_field_hint = "준비된 필드를 사용할 수 없습니다. 필드 이름을 직접 입력하세요."
ko TranslationKey.dataset_register_schema_changed =
    "저장된 필드가 준비된 스키마에 없습니다. 저장하기 전에 사용 가능한 필드를 선택하세요."
