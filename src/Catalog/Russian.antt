-- ===== src/Catalog/Russian.antt =====
-- frontend/src/i18n/catalog.ts: the Russian catalogue.
use llm_evaluation.Prelude.{String}
use llm_evaluation.Catalog.Keys.{TranslationKey}

unfoldable pub ru : TranslationKey → String
ru TranslationKey.common_dismiss = "Закрыть"
ru TranslationKey.common_loading = "Загрузка…"
ru TranslationKey.common_not_configured = "Не настроено"
ru TranslationKey.common_not_recorded = "Не записано"
ru TranslationKey.common_unavailable = "Недоступно"
ru TranslationKey.common_unknown = "Неизвестно"
ru TranslationKey.locale_label = "Язык рабочего пространства"
ru TranslationKey.locale_unsupported = "Неподдерживаемая локаль"
ru TranslationKey.provider_missing = "Поставщик переводов недоступен."
ru TranslationKey.run_launcher_context_title = "Контекст запуска"
ru TranslationKey.run_launcher_context_description =
    "Выберите доступную конечную точку и проверьте способ запуска перед постановкой в очередь."
ru TranslationKey.run_launcher_quick_start_title = "Быстрый старт"
ru TranslationKey.run_launcher_quick_start_description =
    "Запустите небольшую встроенную оценку без предварительной подготовки набора данных."
ru TranslationKey.run_launcher_dataset_description =
    "Выберите готовый набор данных и сопоставьте его поля со снимком оценки."
ru TranslationKey.run_launcher_quick_start_benchmark = "Бенчмарк быстрого старта"
ru TranslationKey.run_launcher_offline_hint =
    "Встроенные примеры малы, детерминированы и доступны офлайн для проверки текста и модальностей."
ru TranslationKey.run_launcher_queue_quick_start = "Поставить быстрый старт в очередь"
ru TranslationKey.run_launcher_preflight_quick_start = "Проверить быстрый старт"
ru TranslationKey.run_launcher_preflight_dataset = "Проверить набор данных"
ru TranslationKey.run_launcher_not_checked = "Не проверено"
ru TranslationKey.run_launcher_checking = "Проверка…"
ru TranslationKey.run_launcher_ready = "Готово к постановке в очередь"
ru TranslationKey.run_launcher_blocked = "Заблокировано"
ru TranslationKey.run_launcher_dataset_handoff =
    "Выбрано из каталога. Проверьте сопоставление полей перед постановкой в очередь."
ru TranslationKey.run_launcher_schema_loading = "Чтение подготовленных полей набора данных…"
ru TranslationKey.run_launcher_schema_empty = "В этом наборе данных нет доступных для выбора полей."
ru TranslationKey.run_launcher_schema_reference_required =
    "В этом наборе данных доступно только одно поле; требуется отдельное поле эталона."
ru TranslationKey.run_launcher_schema_distinct_fields = "Поля ввода и эталона должны различаться."
ru TranslationKey.run_launcher_schema_retry = "Повторить"
ru TranslationKey.prompt_package_title = "Пакеты промптов"
ru TranslationKey.prompt_package_description =
    "Создавайте версионируемые инструкции оценки для запусков."
ru TranslationKey.prompt_package_inventory = "Инвентарь пакетов промптов"
ru TranslationKey.prompt_package_empty = "Пакетов промптов пока нет."
ru TranslationKey.prompt_package_create = "Создать пакет промптов"
ru TranslationKey.prompt_package_name = "Название"
ru TranslationKey.prompt_package_version = "Версия"
ru TranslationKey.prompt_package_type = "Тип промпта"
ru TranslationKey.prompt_package_system_message = "Системное сообщение"
ru TranslationKey.prompt_package_user_template = "Пользовательский шаблон"
ru TranslationKey.prompt_package_few_shot_examples = "Примеры few-shot (массив JSON)"
ru TranslationKey.prompt_package_output_format = "Формат вывода (объект JSON)"
ru TranslationKey.prompt_package_response_parser = "Парсер ответа (объект JSON)"
ru TranslationKey.prompt_package_scoring_rule = "Правило оценки (объект JSON)"
ru TranslationKey.prompt_package_change_log = "Журнал изменений"
ru TranslationKey.prompt_package_save = "Сохранить версионируемый промпт"
ru TranslationKey.prompt_package_saving = "Сохранение…"
ru TranslationKey.prompt_package_invalid_json =
    "Используйте допустимый JSON для необязательных полей конфигурации."
ru TranslationKey.prompt_package_examples_must_array = "Примеры few-shot должны быть массивом JSON."
ru TranslationKey.prompt_package_config_must_object =
    "Необязательные поля конфигурации должны быть объектами JSON."
ru TranslationKey.prompt_package_inventory_tab = "Список промптов"
ru TranslationKey.prompt_package_inventory_description =
    "Выберите версию, чтобы просмотреть инструкции оценки и управлять ими."
ru TranslationKey.prompt_package_create_tab = "Новый пакет промптов"
ru TranslationKey.prompt_package_create_description =
    "Создайте версионированный пакет промптов для повторного использования в оценках."
ru TranslationKey.prompt_package_identity = "Идентификация и тип"
ru TranslationKey.prompt_package_instructions = "Инструкции промпта"
ru TranslationKey.prompt_package_advanced = "Расширенная конфигурация"
ru TranslationKey.prompt_package_template_hint = "Поддерживаемые переменные шаблона:"
ru TranslationKey.prompt_package_variables = "Переменные"
ru TranslationKey.prompt_package_no_system_message = "Системное сообщение не настроено."
ru TranslationKey.prompt_package_not_configured = "Не настроено"
ru TranslationKey.prompt_package_no_change_log = "Журнал изменений не указан."
ru TranslationKey.prompt_package_edit = "Изменить пакет промптов"
ru TranslationKey.prompt_package_save_changes = "Сохранить изменения"
ru TranslationKey.prompt_package_cancel = "Отмена"
ru TranslationKey.prompt_package_duplicate = "Дублировать как новую версию"
ru TranslationKey.prompt_package_delete = "Удалить пакет"
ru TranslationKey.prompt_package_deleting = "Удаление…"
ru TranslationKey.prompt_package_delete_confirmation =
    "Удалить {{name}} v{{version}}? Пакеты, используемые запусками или наборами, защищены."
ru TranslationKey.prompt_package_saved_notice = "Версионированный пакет промптов сохранен."
ru TranslationKey.prompt_package_updated_notice = "Пакет промптов обновлен."
ru TranslationKey.prompt_package_deleted_notice = "Пакет промптов удален."
ru TranslationKey.dataset_run_title = "Оценка набора данных"
ru TranslationKey.dataset_run_dataset = "Набор данных"
ru TranslationKey.dataset_run_prompt_package = "Пакет промптов (необязательно)"
ru TranslationKey.dataset_run_reference_field = "Поле эталонного ответа"
ru TranslationKey.dataset_run_reference_field_hint = "Поле записи с ожидаемым ответом"
ru TranslationKey.dataset_run_sample_limit = "Лимит выборки"
ru TranslationKey.dataset_run_endpoint = "Конечная точка"
ru TranslationKey.dataset_run_non_ready_hint =
    "Перечислены только готовые наборы данных. Сначала загрузите и проверьте другие версии."
ru TranslationKey.dataset_run_queue = "Поставить оценку набора данных в очередь"
ru TranslationKey.dataset_run_queued = "Оценка набора данных поставлена в очередь."
ru TranslationKey.dataset_run_input_field = "Поле ввода"
ru TranslationKey.dataset_run_metric = "Метрика оценки"
ru TranslationKey.dataset_run_metric_default = "По умолчанию"
ru TranslationKey.dataset_run_metric_exact_match = "Точное совпадение"
ru TranslationKey.dataset_run_metric_normalized_exact_match = "Нормализованное точное совпадение"
ru TranslationKey.dataset_run_metric_token_f1 = "F1 по токенам"
ru TranslationKey.dataset_run_metric_bleu = "BLEU"
ru TranslationKey.dataset_run_metric_rouge_l = "ROUGE-L"
ru TranslationKey.dataset_run_metric_llm_judge = "LLM-судья"
ru TranslationKey.dataset_run_judge_endpoint = "Конечная точка судьи"
ru TranslationKey.dataset_run_judge_endpoint_hint =
    "Выберите протестированную точку, отличную от оцениваемой модели."
ru TranslationKey.dataset_run_judge_system_message = "Системное сообщение судьи"
ru TranslationKey.dataset_run_judge_system_message_hint =
    "Определите критерии, которые судья должен применять к каждому ответу."
ru TranslationKey.dataset_run_judge_configuration_required =
    "Выберите отдельную точку судьи и укажите системное сообщение."
ru TranslationKey.dataset_run_metric_default_hint =
    "По умолчанию используется правило оценки пакета промптов, затем точное совпадение."
ru TranslationKey.dataset_run_metric_override_hint =
    "Выбор метрики здесь переопределяет правило оценки пакета промптов."
ru TranslationKey.dataset_run_effective_metric = "Метрика оценки"
ru TranslationKey.dataset_run_start_evaluation = "Начать оценку"
ru TranslationKey.dataset_register_title = "Регистрация версии набора данных"
ru TranslationKey.dataset_register_input_field = "Поле ввода"
ru TranslationKey.dataset_register_reference_field = "Поле эталонного ответа (вывод)"
ru TranslationKey.dataset_register_input_field_hint =
    "Необязательное поле записи, используемое как вход промпта"
ru TranslationKey.dataset_register_reference_field_hint =
    "Необязательное поле записи с ожидаемым ответом"
ru TranslationKey.dataset_register_metadata = "Профиль оценки"
ru TranslationKey.dataset_register_metadata_hint =
    "Добавьте к этой версии повторно используемые метаданные задачи и языка."
ru TranslationKey.dataset_register_capabilities = "Возможности"
ru TranslationKey.dataset_register_languages = "Языки"
ru TranslationKey.dataset_register_evaluation_type = "Тип оценки"
ru TranslationKey.dataset_register_remove_capability = "Удалить возможность"
ru TranslationKey.dataset_register_remove_language = "Удалить язык"
ru TranslationKey.dataset_register_multi_value_hint =
    "Нажмите Enter или запятую для добавления; Backspace удаляет последнее значение."
ru TranslationKey.dataset_register_type_classification = "Классификация"
ru TranslationKey.dataset_register_type_generation = "Генерация"
ru TranslationKey.dataset_register_type_code = "Код"
ru TranslationKey.dataset_register_type_language_modeling = "Языковое моделирование"
ru TranslationKey.dataset_register_type_custom = "Пользовательский"
ru TranslationKey.dataset_register_schema_loading = "Чтение подготовленных полей для выбора…"
ru TranslationKey.dataset_register_manual_field_hint =
    "Подготовленные поля недоступны; введите имена полей вручную."
ru TranslationKey.dataset_register_schema_changed =
    "Сохранённое поле отсутствует в подготовленной схеме. Выберите доступное поле перед сохранением."
